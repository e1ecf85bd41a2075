-- ===== src/Py.antt =====
-- The part of Python that the modelled code stands on.
pub mod Value
pub mod Result
pub mod Text
pub mod Laws
