-- ===== src/Filemap.antt =====
-- ibcs/filemap.c: the --map option, which gives some paths of a program other names.
pub mod Result
pub mod Normalise
pub mod Parse
pub mod Translate
pub mod InPlace
