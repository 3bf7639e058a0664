-- ===== src/Examples.antt =====
-- A small server on which the hypotheses of the theorems hold, and the theorems at concrete inputs.
mod Fits
mod Server
mod Laws
mod Files
mod Stats
mod Json
mod JsonLaws
mod Directories
mod Posix
mod Trees
mod Orphans
mod Codes
mod Bucket
mod BucketSteps
mod BucketLaws
mod Races
mod Lost
mod Host
