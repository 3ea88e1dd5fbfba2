-- ===== src/Pypi.antt =====
-- backend/internal/handlers/pypi: which dependencies of a Python package are fetched ahead.
pub mod Versions
pub mod Markers
