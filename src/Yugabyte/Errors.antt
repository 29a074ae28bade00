-- ===== src/Yugabyte/Errors.antt =====
-- lib/boostd-data/yugabyte/err.go and encode.go.
use txcartool.Common.{
  ℕ, ◌+◌, ◌-◌, Bool, true, false, ◌&&◌, ◌||◌, [], ◌∷◌, Bytes, codes, Result, ok, err, panic, Error,
  not_found, absent, failed, if◌then◌else◌, ◌==◌, ltb, leb, length, drop, map,
}

-- `strings.ToLower` on ASCII
abbrev pub lower : ℕ → ℕ
lower b = if leb b'A' b && leb b b'Z' then b + 32 else b

unfoldable pub has_front : Bytes → Bytes → Bool
has_front [] t = true
has_front (p ∷ ps) [] = false
has_front (p ∷ ps) (c ∷ t) = p == c && has_front ps t

unfoldable pub contains : Bytes → Bytes → Bool
unfolding has_front
contains [] p = has_front p []
contains (c ∷ t) p = has_front p (c ∷ t) || contains t p

-- The driver's own error, or a text that has "not found" in it, as that of `types.ErrNotFound` does.
unfoldable pub is_not_found_err : Error → Bool
unfolding contains
is_not_found_err not_found = true
is_not_found_err absent = true
is_not_found_err (failed t) = contains (map lower t) (codes "not found")

-- `normalizePieceCidError` and `normalizeMultihashError`, where there is an error
unfoldable pub normalize_error : Error → Error
unfolding is_not_found_err
normalize_error e = if is_not_found_err e then absent else e

abbrev pub normalized : {A : Type 0} → Result A → Result A
normalized (ok a) = ok a
normalized (err e) = err (normalize_error e)
normalized panic = panic

abbrev pub multihash_limit_bytes : ℕ
multihash_limit_bytes = 24

-- The last bytes of a multihash, or the whole of one that is not longer.
unfoldable pub trim_multihash : Bytes → Bytes
trim_multihash mh =
    let idx =
      if ltb multihash_limit_bytes (length mh) then length mh - multihash_limit_bytes else 0 in
    drop idx mh
