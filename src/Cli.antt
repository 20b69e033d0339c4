-- ===== src/Cli.antt =====
-- src/eous/cli.py: the four commands and `main`, on a console of the lines written.
pub mod Readable
pub mod Hash
pub mod Expand
mod Tests
pub mod Fields
pub mod Console
pub mod Json
pub mod Numbers
pub mod Env
pub mod Analyses
pub mod Messages
pub mod Digests
pub mod Scores
pub mod Compare
pub mod Match
pub mod Cross
pub mod Run
