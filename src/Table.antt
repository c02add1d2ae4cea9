-- ===== src/Table.antt =====
-- controllers/table_controller.js and the data of tables: headers, cells, and how they are laid out.
pub mod Headers
pub mod Paths
pub mod Mapping
pub mod Controller
pub mod Push
pub mod Adapter
pub mod Spans
pub mod RowSpans
