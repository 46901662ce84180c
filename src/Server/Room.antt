-- ===== src/Server/Room.antt =====
-- main.cpp, `on_server_message`: the payload's format, "platform-tag" + "_" + "roomid".
use dmproxy.Base.{
  Bytes, ℕ, suc, ◌+◌, ◌-◌, ◌<◌, ◌≡◌, ◌≢◌, ap, [], ◌∷◌, ◌++◌, ◌&&◌, inl, inr, Option, none, some,
  ltb, if◌then◌else◌, length, take, drop, find_byte, All, arith, Option-cases, length-append, zero,
  append_assoc, ◌↔◌, ◌∙◌, take-append_length, drop-append_length,
}

-- `npos` is larger than any length, so a text with no underscore fails the last test.
unfoldable pub split_room : Bytes → Option (Bytes × Bytes)
split_room roomstr = elim (find_byte b'_' roomstr) [
  | none ↦ none
  | some pos ↦
      if ltb 3 (length roomstr) && ltb 0 pos && ltb pos (length roomstr - 1)
      then some (take pos roomstr, drop (suc pos) roomstr)
      else none
]

abbrev pub Lacks : ℕ → Bytes → Type 0
Lacks c = All (λ x. x ≢ c)

found : (c x : ℕ) (s : Bytes) → find_byte c (x ∷ s) ≡ some 0 → x ≡ c
unfolding find_byte
found c x s h = ground arith

found_later :
    (c x : ℕ) (s : Bytes) (pos : ℕ)
    → find_byte c (x ∷ s) ≡ some (suc pos)
    → (x ≢ c) × (find_byte c s ≡ some pos)
unfolding find_byte
found_later c x s pos h = ground arith

find_byte-split :
    (c : ℕ) (s : Bytes) (pos : ℕ)
    → find_byte c s ≡ some pos
    → (s ≡ take pos s ++ c ∷ drop (suc pos) s)
      × Lacks c (take pos s)
      × (length (take pos s) ≡ pos)
      × (length (drop (suc pos) s) + suc pos ≡ length s)
unfolding find_byte
find_byte-split c [] pos h = cc
find_byte-split c (x ∷ s) zero h = ground (arith, found c x s h)
find_byte-split c (x ∷ s) (suc pos) h =
    let (miss, e) = found_later c x s pos h in
    let (whole, lacks, before, after) = find_byte-split c s pos e in
    (ap (◌∷◌ x) whole, (miss, lacks), ap suc before, omega (arith, after))

find_byte-append : (c : ℕ) (s t : Bytes) → Lacks c s → find_byte c (s ++ c ∷ t) ≡ some (length s)
unfolding find_byte
find_byte-append c [] t h = ground arith
find_byte-append c (x ∷ s) t h = ground (arith, find_byte-append c s t h.1)

-- A text that splits is longer than three, and is a tag without an underscore, an underscore and a
-- room id, neither the tag nor the room id empty.
pub split_room_sound :
    (roomstr tag roomid : Bytes)
    → split_room roomstr ≡ some (tag, roomid)
    → (roomstr ≡ tag ++ b'_' ∷ roomid)
      × Lacks b'_' tag
      × (0 < length tag)
      × (0 < length roomid)
      × (3 < length roomstr)
unfolding split_room
split_room_sound roomstr tag roomid h = elim (Option-cases (find_byte b'_' roomstr)) [
  | inl e ↦ ground arith
  | inr (pos, e) ↦ ground (arith, find_byte-split b'_' roomstr pos e)
]

-- A tag without an underscore and a room id, neither of them empty and together longer than two,
-- are what the text that joins them with an underscore splits into.
split_room_complete :
    (tag roomid : Bytes)
    → Lacks b'_' tag
    → 0 < length tag
    → 0 < length roomid
    → 2 < length tag + length roomid
    → split_room (tag ++ b'_' ∷ roomid) ≡ some (tag, roomid)
unfolding split_room
split_room_complete tag roomid h ht hr hl = ground (
  arith,
  find_byte-append b'_' tag roomid h,
  take-append_length tag (b'_' ∷ roomid),
  drop-append_length (tag ++ b'_' ∷ []) roomid,
  append_assoc tag (b'_' ∷ []) roomid,
  length-append tag (b'_' ∷ roomid),
  length-append tag (b'_' ∷ []),
)

-- The texts that split are those longer than three that are a tag without an underscore, an
-- underscore and a room id, neither the tag nor the room id empty; and they split into these two.
pub split_room_iff :
    (roomstr tag roomid : Bytes)
    → (split_room roomstr ≡ some (tag, roomid)) ↔ (
        (roomstr ≡ tag ++ b'_' ∷ roomid)
        × Lacks b'_' tag
        × (0 < length tag)
        × (0 < length roomid)
        × (3 < length roomstr))
split_room_iff roomstr tag roomid = (
  split_room_sound roomstr tag roomid,
  λ (e, lacks, t, r, l).
      ap split_room e
      ∙ split_room_complete tag roomid lacks t r
          (omega (arith, l, ap length e, length-append tag (b'_' ∷ roomid))),
)
