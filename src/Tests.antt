-- ===== src/Tests.antt =====
-- Runs of the models on small inputs, and the theorems at concrete inputs.
mod Eio
mod Ev
mod Http
mod Loop
mod Modules
mod Fs
mod Esm
mod TaskList
mod Epoll
mod ThreadPool
mod Links
mod Server
mod Url
mod Etp
mod Request
mod Header
mod Tasks
mod File
mod Fetch
mod Resolve
mod Client
mod Normalize
mod Util
