-- ===== src/Util.antt =====
-- source/util.c on memory as a list of bytes, from the address that a pointer holds on; what is
-- read behind the end of the list is NUL.
use fastboot3ds.Base.{
  ℕ, zero, suc, ◌+◌, ◌-◌, ◌*◌, ◌/◌, ◌%◌, ◌^◌, not, ◌||◌, ◌&&◌, [], ◌∷◌, ◌++◌, Bytes, get_or, take,
  drop, min, leb, ◌==◌, if◌then◌else◌, put_at, le32_at, ℤ, pos, neg,
}

-- `tolower` in the C locale.
unfoldable pub tolower : ℕ → ℕ
tolower c = if leb 65 c && leb c 90 then c + 32 else c

-- a - b
abbrev pub diff : ℕ → ℕ → ℤ
diff a b = if leb b a then pos (a - b) else neg (b - a)

unfoldable pub strnicmp : Bytes → Bytes → ℕ → ℤ
unfolding tolower
strnicmp s t zero = pos 0
strnicmp s t (suc len) =
    let a = get_or s 0 0 in
    let b = get_or t 0 0 in
    let rest = strnicmp (drop 1 s) (drop 1 t) len in
    if not (tolower a == tolower b) || a == 0 then diff (tolower a) (tolower b) else rest

-- The bytes that the loop of `strncpy_s` copies.
unfoldable pub copied : ℕ → Bytes → Bytes
copied zero s = []
copied (suc n) s =
    let c = get_or s 0 0 in let rest = copied n (drop 1 s) in if c == 0 then [] else c ∷ rest

unfoldable pub strncpy_s : Bytes → Bytes → ℕ → ℕ → Bytes
unfolding put_at copied
strncpy_s dest s nchars buflen =
    if buflen == 0
    then dest
    else if leb buflen 1
    then put_at 0 (0 ∷ []) dest
    else put_at 0 (copied (if leb buflen nchars then buflen - 1 else nchars) s ++ (0 ∷ [])) dest

-- The destination afterwards. Both directions copy the same bytes; where the areas overlap, the
-- loop or `memcpy` reads each byte before it is overwritten.
unfoldable pub memcpy_s : Bytes → ℕ → ℕ → Bytes → ℕ → ℕ → Bytes
unfolding put_at
memcpy_s dst dst_size dst_offset src src_size src_offset =
    let actual_size = min (dst_size - dst_offset) (src_size - src_offset) in
    if leb dst_size dst_offset
    then dst
    else if leb src_size src_offset
    then dst
    else put_at dst_offset (take actual_size (drop src_offset src)) dst

unfoldable pub getleu32 : Bytes → ℕ
unfolding le32_at
getleu32 p = le32_at p 0

-- The masks and shifts of `swap32` written as quotients and remainders.
unfoldable pub swap32 : ℕ → ℕ
swap32 val =
    val / 2 ^ 24
    + val / 2 ^ 16 % 2 ^ 8 * 2 ^ 8
    + val / 2 ^ 8 % 2 ^ 8 * 2 ^ 16
    + val % 2 ^ 8 * 2 ^ 24
