-- ===== src/Http.antt =====
-- The HTTP interface of src/server.rs. `Staging` and `Upload` are the handler of a flash upload, `Post` the
-- other handlers that submit an operation, `Reports` those that read events. `Staged`, `AnyOrder`,
-- `Accepted` and `Verified` are about uploads, `Unbroken` and `Waited` about what a reader is sent, `Bounded`
-- about what the other handlers submit.
pub mod Staging
pub mod Upload
pub mod Staged
pub mod AnyOrder
pub mod Accepted
pub mod Verified
pub mod Reports
pub mod Unbroken
pub mod Waited
pub mod Post
pub mod Bounded
