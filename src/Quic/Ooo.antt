-- ===== src/Quic/Ooo.antt =====
-- core/quic_ooo_list.go: the list of out-of-order segments, kept in chunks of at most 64.
pub mod Flat
pub mod Room
pub mod Insert
pub mod Drop
pub mod Walk
pub mod Search
pub mod Rising
pub mod Before
pub mod Found
mod Tests
use alos_http.Prelude.{
  ℕ, zero, suc, ◌+◌, ◌-◌, ◌/◌, ◌<◌, ◌≤◌, ltb, leb, ◌==◌, Bool, true, false, not, ◌&&◌, ◌||◌, List,
  [], ◌∷◌, ◌++◌, length, take, drop, get_elem?, if◌then◌else◌, Option, none, some,
}
use alos_http.Quic.Stream.{Segment, seg_end}

abbrev pub chunk_len : ℕ
chunk_len = 64

abbrev pub half_chunk : ℕ
half_chunk = 32

-- `quicOOOPos`.
pub record OooPos : Type 0 where
  pub chunk : ℕ
  pub idx : ℕ

-- `quicOOOList`; `inline` and `spare` are memory to use again.
pub record OooList : Type 0 where
  pub chunks : List (List Segment)
  pub count : ℕ

-- The chunk at an index, empty where there is none.
unfoldable pub chunk_at : ℕ → List (List Segment) → List Segment
chunk_at c [] = []
chunk_at zero (ch ∷ cs) = ch
chunk_at (suc c) (ch ∷ cs) = chunk_at c cs

-- `chunks[c] = ...`, with what the chunk becomes: one chunk, or two.
unfoldable pub replace_chunk :
    ℕ → (List Segment → List (List Segment)) → List (List Segment) → List (List Segment)
replace_chunk c become [] = []
replace_chunk zero become (ch ∷ cs) = become ch ++ cs
replace_chunk (suc c) become (ch ∷ cs) = ch ∷ replace_chunk c become cs

-- `slices.Insert` of one element.
unfoldable pub insert_segment : ℕ → Segment → List Segment → List Segment
insert_segment i seg ss = take i ss ++ (seg ∷ drop i ss)

unfoldable pub last_segment : List Segment → Option Segment
last_segment [] = none
last_segment (s ∷ []) = some s
last_segment (s ∷ t ∷ ss) = last_segment (t ∷ ss)

unfoldable pub end_pos : OooList → OooPos
end_pos l = record { chunk = length l.chunks; idx = 0 }

unfoldable pub segment_at : OooList → OooPos → Option Segment
segment_at l p =
    if leb (length l.chunks) p.chunk then none else get_elem? (chunk_at p.chunk l.chunks) p.idx

unfoldable pub segment_before : OooList → OooPos → Option Segment
segment_before l p =
    if ltb 0 p.idx
    then get_elem? (chunk_at p.chunk l.chunks) (p.idx - 1)
    else if p.chunk == 0
    then none
    else last_segment (chunk_at (p.chunk - 1) l.chunks)

unfoldable pub next_pos : OooList → OooPos → OooPos
next_pos l p =
    if ltb (p.idx + 1) (length (chunk_at p.chunk l.chunks))
    then record { chunk = p.chunk; idx = p.idx + 1 }
    else record { chunk = p.chunk + 1; idx = 0 }

-- `sort.Search` of the standard library, between two bounds: it halves what lies between them, so that as many rounds as
-- there are indices are enough.
unfoldable pub sort_search : (ℕ → Bool) → ℕ → ℕ → ℕ → ℕ
sort_search f zero i j = i
sort_search f (suc k) i j =
    let h = (i + j) / 2 in
    let rest = sort_search f k (if f h then i else h + 1) (if f h then h else j) in
    if ltb i j then rest else i

abbrev pub ends_after : ℕ → Option Segment → Bool
ends_after off none = false
ends_after off (some s) = ltb off (seg_end s)

abbrev pub chunk_ends_after : ℕ → List (List Segment) → ℕ → Bool
chunk_ends_after off cs c = ends_after off (last_segment (chunk_at c cs))

abbrev pub segment_ends_after : ℕ → List Segment → ℕ → Bool
segment_ends_after off ch i = ends_after off (get_elem? ch i)

-- `firstEndingAfter`, on the chunks.
unfoldable pub first_ending_pos : OooList → ℕ → OooPos
first_ending_pos l off =
    let n = length l.chunks in
    let c = sort_search (chunk_ends_after off l.chunks) n 0 n in
    let ch = chunk_at c l.chunks in
    let i = sort_search (segment_ends_after off ch) (length ch) 0 (length ch) in
    if l.count == 0
    then end_pos l
    else if not (chunk_ends_after off l.chunks (n - 1))
    then end_pos l
    else record { chunk = c; idx = i }

-- `split`: a full chunk becomes two halves.
unfoldable pub halves : List Segment → List (List Segment)
halves ch = take half_chunk ch ∷ drop half_chunk ch ∷ []

unfoldable pub split_chunk : OooList → OooPos → OooList × OooPos
split_chunk l p =
    let l' : OooList = record l { chunks = replace_chunk p.chunk halves l.chunks } in
    if ltb half_chunk p.idx
    then (l', record { chunk = p.chunk + 1; idx = p.idx - half_chunk })
    else (l', p)

-- The write into a chunk that has room.
unfoldable pub insert_into : Segment → OooList × OooPos → OooList × OooPos
insert_into seg (l, p) = (
  record l { chunks = replace_chunk p.chunk (λ ch. insert_segment p.idx seg ch ∷ []) l.chunks },
  p,
)

unfoldable pub insert_with_room : OooList → OooPos → Segment → OooList × OooPos
insert_with_room l p seg =
    if length (chunk_at p.chunk l.chunks) == chunk_len
    then insert_into seg (split_chunk l p)
    else insert_into seg (l, p)

-- `insert`: the position behind the end is that behind the last chunk, which may be full.
unfoldable pub insert_last : OooList → Segment → OooList × OooPos
insert_last l seg =
    let c = length l.chunks - 1 in
    let n = length (chunk_at c l.chunks) in
    if n == chunk_len
    then (record l { chunks = l.chunks ++ ((seg ∷ []) ∷ []) }, record { chunk = c + 1; idx = 0 })
    else insert_with_room l (record { chunk = c; idx = n }) seg

unfoldable pub ooo_insert : OooList → OooPos → Segment → OooList × OooPos
ooo_insert l p seg =
    let l' : OooList = record l { count = l.count + 1 } in
    if length l.chunks == 0
    then (record l' { chunks = (seg ∷ []) ∷ [] }, record { chunk = 0; idx = 0 })
    else if p.chunk == length l.chunks
    then insert_last l' seg
    else insert_with_room l' p seg

-- The loop of `dropFront`.
unfoldable pub drop_chunks : ℕ → List (List Segment) → List (List Segment)
drop_chunks k [] = []
drop_chunks k (ch ∷ cs) =
    let rest = drop_chunks (k - length ch) cs in
    if k == 0 then ch ∷ cs else if ltb k (length ch) then drop k ch ∷ cs else rest

unfoldable pub drop_front : OooList → ℕ → OooList
drop_front l k = record { chunks = drop_chunks k l.chunks; count = l.count - k }
