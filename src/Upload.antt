-- ===== src/Upload.antt =====
-- internal/upload/upload.go: the target that an uploaded file is queued as, and its key.
use docsearch.Strings.{starts_with}
use docsearch.Prelude.{
  Bool, true, false, not, ◌&&◌, ◌++◌, if◌then◌else◌, length, drop, is_empty, Text, codes,
}

abbrev pub scheme : Text
scheme = codes "upload:"

unfoldable pub target : Text → Text
target key = scheme ++ key

-- `strings.CutPrefix`: what is left behind the prefix, and whether it was there.
unfoldable pub cut_prefix : Text → Text → Text × Bool
cut_prefix p s = if starts_with p s then (drop (length p) s, true) else (s, false)

unfoldable pub key_of : Text → Text × Bool
unfolding cut_prefix
key_of t =
    ((cut_prefix scheme t).0, (cut_prefix scheme t).1 && not (is_empty (cut_prefix scheme t).0))
