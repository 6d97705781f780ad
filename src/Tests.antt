-- ===== src/Tests.antt =====
mod SumCode
mod Blocks
mod Stripes
mod Answers
mod Drives
mod Clusters
mod Waiting
mod Texts
mod Files
mod Numbers
mod Removal
mod Gets
mod Ranges
mod Threads
mod Clients
mod Caches
mod Administration
