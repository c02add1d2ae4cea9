-- ===== src/Tests.antt =====
-- The theorems at concrete inputs.
mod Buttons
mod Events
mod Sorting
mod Tables
mod Lists
mod Menus
mod Layouts
mod Models
mod Cells
mod Views
