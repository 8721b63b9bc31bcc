-- ===== src/Cluster.antt =====
-- What the program sees of the cluster and the cloud: the Kubernetes objects with the fields that
-- it reads, and the calls that it makes with the answers of the outside world.
pub mod Objects
pub mod Api
pub mod Laws
pub mod Ends
pub mod Keeps
