-- ===== src/Examples.antt =====
-- Tests, and the theorems at concrete inputs.
mod ToyCrypto
mod Values
mod Items
mod Link
mod KeyTransfer
mod Files
mod Archives
mod Shelves
mod Requests
mod Sessions
mod Keys
mod Names
mod Service
