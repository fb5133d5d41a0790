-- ===== src/Frozen/Blocks.antt =====
-- The blocks of an image under construction: a write that stays in front of the later ones is kept, and is read back.
use roaring.Prelude.{
  ℕ, suc, ◌+◌, ◌*◌, ◌%◌, ◌^◌, ◌≤◌, ◌<◌, ◌≡◌, ◌∙◌, refl, ap, Bool, true, false, List, [], ◌∷◌, some,
  lt→==, eq→==, le→ltb, le→leb, arith, length,
}
use roaring.Layout.{low_domain_size}
use roaring.Words.{popcount}
use roaring.Runs.{Run, run_size}
use roaring.Containers.{Container, array, run, bitset}
use roaring.Bitmap.Table.{IsHeld}
use roaring.Frozen.{Stored, Block, counts, frozen_payload_layout, rank_bytes_of, extra_bytes}
use roaring.Frozen.Writer.{
  stored_bytes, is_kept, put, copy_payload, write_counts, rank_block, payload_of, run_ranks,
  word_ranks,
}
use roaring.Frozen.View.{load, blocks_inside}
use roaring.Frozen.Align.{layout-IsAlignment, align_up_lem}
use roaring.Frozen.Write.{AllStand, HasRanksIf, most_bytes, next, place}

-- Blocks that begin at `n` or behind it, and blocks that end in a buffer of `size` bytes.
abbrev pub AllFrom : ℕ → List Block → Type 0
AllFrom n [] = Unit
AllFrom n (b ∷ later) = (n ≤ b.start) × AllFrom n later

abbrev pub AllInside : ℕ → List Block → Type 0
AllInside size [] = Unit
AllInside size (b ∷ later) = (b.end ≤ size) × AllInside size later

pub AllFrom-mono : (m n : ℕ) (later : List Block) → m ≤ n → AllFrom n later → AllFrom m later
AllFrom-mono m n [] h all = tt
AllFrom-mono m n (b ∷ later) h all = (omega arith, AllFrom-mono m n later h all.1)

pub blocks_inside_lem :
    (size : ℕ) (bs : List Block) → AllInside size bs → blocks_inside size bs ≡ bs
unfolding blocks_inside
blocks_inside_lem size [] all = refl
blocks_inside_lem size (b ∷ bs) all =
    rw (le→leb b.end size all.0) (ap (λ later. b ∷ later) (blocks_inside_lem size bs all.1))

is_kept_lem : (at end : ℕ) (later : List Block) → AllFrom end later → is_kept at end later ≡ true
unfolding is_kept
is_kept_lem at end [] all = refl
is_kept_lem at end (b ∷ later) all = rw (le→ltb b.start end all.0) (is_kept_lem at end later all.1)

abbrev pub block_of : ℕ → ℕ → ℕ → Stored → Block
block_of start at bytes stored = record { start = start; at = at; end = at + bytes; held = stored }

pub put_lem :
    (size start at bytes : ℕ) (stored : Stored) (later : List Block)
    → at + bytes ≤ size
    → AllFrom (at + bytes) later
    → put size start at bytes stored later ≡ some (block_of start at bytes stored ∷ later)
unfolding put
put_lem size start at bytes stored later fits all =
    rw (le→ltb size (at + bytes) fits, is_kept_lem at (at + bytes) later all) refl

-- A block in front is not in the way.
load_later :
    (b : Block) (x : ℕ) (stores : List Block) → b.at < x → load (b ∷ stores) x ≡ load stores x
unfolding load
load_later b x stores h = rw (lt→== b.at x h) refl

pub load_here : (b : Block) (stores : List Block) → load (b ∷ stores) b.at ≡ some b.held
unfolding load
load_here b stores = rw (eq→== b.at b.at refl) refl

module _ (b : Block) (stores : List Block) where
  pub HasRanks-later :
      (ranked : Bool) (at : ℕ) (c : Container)
      → b.at < at
      → HasRanksIf ranked stores at c
      → HasRanksIf ranked (b ∷ stores) at c
  HasRanks-later true at (array c) h r = tt
  HasRanks-later true at (run c) h r = load_later b at stores h ∙ r
  HasRanks-later true at (bitset c) h r = load_later b at stores h ∙ r
  HasRanks-later false at c h r = tt

  pub AllStand-later :
      (key_bits : ℕ) (ranked : Bool) (offset : ℕ) (t : List (ℕ × Container))
      → b.at < offset
      → offset + most_bytes key_bits ranked t < 2 ^ 32
      → AllStand key_bits ranked stores offset t
      → AllStand key_bits ranked (b ∷ stores) offset t
  AllStand-later key_bits ranked offset [] h small all = tt
  AllStand-later key_bits ranked offset ((k, c) ∷ t) h small ((load', ranks), all) =
      let (aligned, up, near, wide) =
        align_up_lem offset (frozen_payload_layout key_bits c).0 (layout-IsAlignment key_bits c)
          (omega arith) in
      (
        (
          load_later b (place key_bits ranked offset c) stores (omega arith) ∙ load',
          HasRanks-later ranked _ c (omega arith) ranks,
        ),
        AllStand-later key_bits ranked (next key_bits ranked offset c) t (omega arith) (omega arith)
            all,
      )

length-run_ranks : (before : ℕ) (rs : List Run) → length (run_ranks before rs) ≡ length rs
unfolding run_ranks
length-run_ranks before [] = refl
length-run_ranks before (r ∷ rs) = ap suc (length-run_ranks ((before + run_size r) % 2 ^ 32) rs)

length-word_ranks : (before : ℕ) (ws : List ℕ) → length (word_ranks before ws) ≡ length ws
unfolding word_ranks
length-word_ranks before [] = refl
length-word_ranks before (w ∷ ws) = ap suc (length-word_ranks ((before + popcount w) % 2 ^ 32) ws)

-- The rank block of a container in front of the later blocks.
abbrev pub ranks_before : Bool → ℕ → Container → List Block → List Block
ranks_before false x c later = later
ranks_before true x (array c) later = later
ranks_before true x (run c) later =
    block_of x x (2 * length (run_ranks 0 c.runs)) (counts (run_ranks 0 c.runs)) ∷ later
ranks_before true x (bitset c) later =
    block_of x x (2 * length (word_ranks 0 c.words)) (counts (word_ranks 0 c.words)) ∷ later

module _ (key_bits size x : ℕ) (later : List Block) where
  abbrev dom : ℕ
  dom = low_domain_size key_bits

  -- The bytes that the rank block is given are those of its counts.
  pub rank_block_lem :
      (ranked : Bool) (c : Container)
      → IsHeld dom c
      → x + extra_bytes ranked (rank_bytes_of key_bits c) ≤ size
      → AllFrom (x + extra_bytes ranked (rank_bytes_of key_bits c)) later
      → AllInside size later
      → (rank_block ranked size x c later ≡ some (ranks_before ranked x c later))
        × AllFrom x (ranks_before ranked x c later)
        × AllInside size (ranks_before ranked x c later)
  unfolding rank_block write_counts
  rank_block_lem false c held fits all inside =
      (refl, AllFrom-mono x _ later (omega arith) all, inside)
  rank_block_lem true (array c) held fits all inside =
      (refl, AllFrom-mono x _ later (omega arith) all, inside)
  rank_block_lem true (run c) held fits all inside =
      let n = length-run_ranks 0 c.runs in
      let all' = AllFrom-mono (x + 2 * length (run_ranks 0 c.runs)) _ later (omega arith) all in
      (
        put_lem size x x (2 * length (run_ranks 0 c.runs)) _ later (omega arith) all',
        (omega arith, AllFrom-mono x _ later (omega arith) all),
        (omega arith, inside),
      )
  rank_block_lem true (bitset c) (valid, some_value) fits all inside =
      let n = length-word_ranks 0 c.words in
      let sized = valid.sized in
      let all' = AllFrom-mono (x + 2 * length (word_ranks 0 c.words)) _ later (omega arith) all in
      (
        put_lem size x x (2 * length (word_ranks 0 c.words)) _ later (omega arith) all',
        (omega arith, AllFrom-mono x _ later (omega arith) all),
        (omega arith, inside),
      )

-- The bytes that a payload is given are those of its elements.
stored_bytes-payload :
    (key_bits : ℕ) (c : Container)
    → IsHeld (low_domain_size key_bits) c
    → stored_bytes key_bits (payload_of c) ≡ (frozen_payload_layout key_bits c).1
unfolding stored_bytes
stored_bytes-payload key_bits (array c) held = refl
stored_bytes-payload key_bits (run c) held = refl
stored_bytes-payload key_bits (bitset c) (valid, held) = let sized = valid.sized in omega arith

pub copy_payload_lem :
    (key_bits size start at : ℕ) (c : Container) (later : List Block)
    → IsHeld (low_domain_size key_bits) c
    → at + (frozen_payload_layout key_bits c).1 ≤ size
    → AllFrom (at + (frozen_payload_layout key_bits c).1) later
    → copy_payload key_bits size start at (frozen_payload_layout key_bits c).1 (payload_of c) later
      ≡ some (block_of start at (frozen_payload_layout key_bits c).1 (payload_of c) ∷ later)
unfolding copy_payload
copy_payload_lem key_bits size start at c later held fits all =
    rw
      (eq→== (stored_bytes key_bits (payload_of c)) (frozen_payload_layout key_bits c).1
        (stored_bytes-payload key_bits c held))
      (put_lem size start at (frozen_payload_layout key_bits c).1 (payload_of c) later fits all)
