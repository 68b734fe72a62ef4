-- ===== src/Ingress.antt =====
-- pkg/privateingress/store.go: private content that a sender hands over before an execution starts: one
-- challenge record for each handoff, and one object file for each content digest.
pub mod Contents
pub mod Accepting
pub mod Deleting
pub mod Handoff
pub mod Uploads
