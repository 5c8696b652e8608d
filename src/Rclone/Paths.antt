-- ===== src/Rclone/Paths.antt =====
-- What rclone reads and writes in each direction.
