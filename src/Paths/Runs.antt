-- ===== src/Paths/Runs.antt =====
-- Concrete runs of the paths, and their theorems at concrete inputs.
use xul.Prelude.{◌≡◌, refl, codes}
use xul.Paths.{
  is_posix_separator, is_windows_separator, split_filename, filename_loop, get_directory, join,
  has_trailing_separator, add_trailing_separator, remove_trailing_separator, replace_basename,
  split_extension, extension_loop,
}

two_dots : replace_basename is_posix_separator b'/' (codes "a/b.c") (codes "f") ≡ codes "a/f..c"
unfolding replace_basename split_filename filename_loop split_extension extension_loop join
    add_trailing_separator has_trailing_separator is_posix_separator
two_dots = refl

windows_directory :
    get_directory is_windows_separator (codes "abc\\cde.txt\\") ≡ codes "abc\\cde.txt"
unfolding get_directory split_filename filename_loop is_windows_separator remove_trailing_separator
    has_trailing_separator
windows_directory = refl
