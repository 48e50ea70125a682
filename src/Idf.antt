-- ===== src/Idf.antt =====
-- src/idf.rs: a flash plan from the manifest of an ESP-IDF build. `Manifest` has its data and its tests,
-- `Import` the import; `Checked` and `Imported` are about what an import keeps of its manifest.
pub mod Manifest
pub mod Import
pub mod Checked
pub mod Imported
