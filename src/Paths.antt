-- ===== src/Paths.antt =====
-- include/xul/os/paths.hpp: basic_paths over the traits of a system, which say what its separator is and
-- which characters are read as one.
pub mod Names
mod Runs
use xul.Prelude.{
  ℕ, zero, suc, ◌+◌, ◌-◌, Bool, true, false, ◌||◌, not, List, [], ◌∷◌, ◌++◌, Bytes, length, get_or,
  take, drop, ◌==◌, if◌then◌else◌,
}

-- windows_path_traits and posix_path_traits.
unfoldable pub is_windows_separator : ℕ → Bool
is_windows_separator ch = (b'/' == ch) || (b'\\' == ch)

unfoldable pub is_posix_separator : ℕ → Bool
is_posix_separator ch = b'/' == ch

-- The loop of split_filename, from `pos` down.
unfoldable pub filename_loop : (ℕ → Bool) → Bytes → ℕ → Bytes × Bytes
filename_loop is_separator path zero =
    if is_separator (get_or path 0 0) then (take 1 path, drop 1 path) else ([], path)
filename_loop is_separator path (suc pos) =
    let rest = filename_loop is_separator path pos in
    if is_separator (get_or path (suc pos) 0)
    then (take (suc pos) path, drop (suc pos + 1) path)
    else rest

unfoldable pub split_filename : (ℕ → Bool) → Bytes → Bytes × Bytes
split_filename is_separator [] = ([], [])
split_filename is_separator (c ∷ path) = filename_loop is_separator (c ∷ path) (length path)

-- The loop of split_extension, from `pos` down.
unfoldable pub extension_loop : (ℕ → Bool) → Bytes → ℕ → Bytes × Bytes
extension_loop is_separator path zero =
    if get_or path 0 0 == b'.' then (take 0 path, drop 0 path) else (path, [])
extension_loop is_separator path (suc pos) =
    let rest = extension_loop is_separator path pos in
    if get_or path (suc pos) 0 == b'.'
    then (take (suc pos) path, drop (suc pos) path)
    else if is_separator (get_or path (suc pos) 0)
    then (path, [])
    else rest

unfoldable pub split_extension : (ℕ → Bool) → Bytes → Bytes × Bytes
split_extension is_separator [] = ([], [])
split_extension is_separator (c ∷ path) = extension_loop is_separator (c ∷ path) (length path)

unfoldable pub get_filename : (ℕ → Bool) → Bytes → Bytes
get_filename is_separator path = (split_filename is_separator path).1

unfoldable pub remove_filename : (ℕ → Bool) → Bytes → Bytes
remove_filename is_separator path = (split_filename is_separator path).0

unfoldable pub remove_extension : (ℕ → Bool) → Bytes → Bytes
remove_extension is_separator path = (split_extension is_separator path).0

unfoldable pub get_extension : (ℕ → Bool) → Bytes → Bytes
get_extension is_separator path = (split_extension is_separator path).1

unfoldable pub get_basename : (ℕ → Bool) → Bytes → Bytes
get_basename is_separator path = remove_extension is_separator (get_filename is_separator path)

unfoldable pub has_extension : (ℕ → Bool) → Bytes → Bool
has_extension is_separator path = not (length (get_extension is_separator path) == 0)

unfoldable pub has_trailing_separator : (ℕ → Bool) → Bytes → Bool
has_trailing_separator is_separator [] = false
has_trailing_separator is_separator (c ∷ path) = is_separator (get_or (c ∷ path) (length path) 0)

unfoldable pub add_trailing_separator : (ℕ → Bool) → ℕ → Bytes → Bytes
add_trailing_separator is_separator separator path =
    if has_trailing_separator is_separator path then path else path ++ (separator ∷ [])

unfoldable pub remove_trailing_separator : (ℕ → Bool) → Bytes → Bytes
remove_trailing_separator is_separator path =
    if not (has_trailing_separator is_separator path)
    then path
    else if length path == 1
    then path
    else take (length path - 1) path

unfoldable pub get_directory : (ℕ → Bool) → Bytes → Bytes
get_directory is_separator path =
    remove_trailing_separator is_separator (split_filename is_separator path).0

unfoldable pub join : (ℕ → Bool) → ℕ → Bytes → Bytes → Bytes
join is_separator separator [] filename = filename
join is_separator separator (c ∷ dir) filename =
    add_trailing_separator is_separator separator (c ∷ dir) ++ filename

unfoldable pub replace_filename : (ℕ → Bool) → ℕ → Bytes → Bytes → Bytes
replace_filename is_separator separator path new_filename =
    join is_separator separator (get_directory is_separator path) new_filename

unfoldable pub replace_directory : (ℕ → Bool) → ℕ → Bytes → Bytes → Bytes
replace_directory is_separator separator path new_dir =
    join is_separator separator new_dir (get_filename is_separator path)

unfoldable pub replace_extension : (ℕ → Bool) → Bytes → Bytes → Bytes
replace_extension is_separator path new_ext = remove_extension is_separator path ++ new_ext

unfoldable pub replace_basename : (ℕ → Bool) → ℕ → Bytes → Bytes → Bytes
replace_basename is_separator separator path new_basename =
    let (dir, filename) = split_filename is_separator path in
    let (_, ext) = split_extension is_separator filename in
    join is_separator separator dir (new_basename ++ (b'.' ∷ ext))
