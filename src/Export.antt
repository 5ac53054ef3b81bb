-- ===== src/Export.antt =====
-- internal/service/export_service.go, export_stream.go and export_shapefile.go: the export formats.
-- Files, buffers, ZIP members and SQLite are left out; a stream is the list of its rows.
pub mod Text
pub mod Columns
pub mod Cells
pub mod Csv
pub mod Feature
pub mod Bytes
pub mod Shapefile
pub mod Geopackage
pub mod Kml
