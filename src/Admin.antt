-- ===== src/Admin.antt =====
-- The administration, src/AdminHTTPServer.cpp, without the text of its pages.
pub mod Listing
pub mod Order
pub mod Sorted
pub mod State
pub mod Messages
pub mod Mirror
pub mod Following
pub mod Commands
pub mod Examples
pub mod Request
pub mod Links
pub mod Pages
pub mod Unnamed
pub mod Commanded
pub mod Headings
pub mod SortParts
pub mod Sorting
pub mod Serve
pub mod Answers
pub mod Unchanged
pub mod Turns
pub mod Passed
pub mod TurnExamples
pub mod Running
