-- ===== src/Jobslib.antt =====
-- jobslib: the library that runs jobs.
pub mod Job
pub mod Cgroups
pub mod Device
pub mod Store
pub mod Query
pub mod Start
pub mod WaitForFile
pub mod Inotify
pub mod Watcher
pub mod Finish
pub mod Stop
pub mod History
