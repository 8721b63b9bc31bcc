-- ===== src/Aws.antt =====
-- pkg/cloudprovider/aws: the cloud provider for AWS, of which no other package makes one yet.
pub mod Types
pub mod DeepEqual
pub mod State
pub mod Refs
pub mod Groups
pub mod Placeholders
pub mod Refresh
pub mod Manager
pub mod NodeGroup
pub mod Discovery
pub mod Run
pub mod Answers
pub mod Util
pub mod Sample
