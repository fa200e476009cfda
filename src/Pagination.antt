-- ===== src/Pagination.antt =====
-- pkg/endpoints/pagination/pagination.go: three paginated views of one synthetic dataset.
-- A Go `int` is a `ℤ` with 64-bit arithmetic.
pub mod Params
pub mod Handlers
pub mod Accepts
pub mod Window
pub mod Crawl
pub mod Pages
pub mod Sound
pub mod Styles
mod Tests
