-- ===== src/K8s.antt =====
-- The waits on jobs and pods of a cluster, and the texts that explain a failed one
-- (internal/k8s/job.go, pod.go and exitcode.go). The answers of the cluster are arguments.
pub mod Pods
pub mod Exit
pub mod Tail
pub mod Wait
pub mod Watch
pub mod Service
pub mod Diagnostics
mod Tests
