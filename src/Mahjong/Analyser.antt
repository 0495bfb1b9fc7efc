-- ===== src/Mahjong/Analyser.antt =====
-- component/mjana/mjana.go, type HuAnalyser001: the counters of a hand, and the recursion that
-- takes triplets and runs from them in place.
pub mod Decomposition
pub mod SplitRow
pub mod Loops
pub mod FirstLevel
use common_fw.Common.{
  ℕ, zero, suc, ◌+◌, ◌-◌, ◌%◌, Bool, true, false, not, ◌&&◌, ◌||◌, Option, none, some, ltb, leb,
  ◌==◌, if◌then◌else◌, Outcome, ok, panic, stuck, ◌>>=◌,
}

-- One of the four arrays [10]int32 of AllPai: index 0 holds the total, index v the tiles of value v.
abbrev pub Row : Type 0
Row = ℕ → ℕ

abbrev pub update : Row → ℕ → ℕ → Row
update r i v j = if j == i then v else r j

-- AllPai, by suit.
pub record HuAnalyser001 : Type 0 where
  pub all_pai : ℕ → Row

abbrev pub set_row : HuAnalyser001 → ℕ → Row → HuAnalyser001
set_row ha k row = record { all_pai = λ j. if j == k then row else ha.all_pai j }

-- `for ; i < 10; i++ { if AllPai[ctype][i] != 0 { break } }`, with `n` rounds left.
unfoldable pub first_nonzero : ℕ → ℕ → Row → ℕ
first_nonzero zero i r = i
first_nonzero (suc n) i r = if r i == 0 then first_nonzero n (i + 1) r else i

abbrev pub take_triplet : Row → ℕ → Row
take_triplet r i = let r' = update r i (r i - 3) in update r' 0 (r' 0 - 3)

abbrev pub put_triplet : Row → ℕ → Row
put_triplet r i = let r' = update r i (r i + 3) in update r' 0 (r' 0 + 3)

abbrev pub take_run : Row → ℕ → Row
take_run r i =
    let r1 = update r i (r i - 1) in
    let r2 = update r1 (i + 1) (r1 (i + 1) - 1) in
    let r3 = update r2 (i + 2) (r2 (i + 2) - 1) in update r3 0 (r3 0 - 3)

abbrev pub put_run : Row → ℕ → Row
put_run r i =
    let r1 = update r i (r i + 1) in
    let r2 = update r1 (i + 1) (r1 (i + 1) + 1) in
    let r3 = update r2 (i + 2) (r2 (i + 2) + 1) in update r3 0 (r3 0 + 3)

-- The row of one suit, changed and restored in place. The first argument is fuel.
unfoldable pub split3np2 : ℕ → ℕ → Row → Outcome (Bool × Row)
split3np2 zero ctype r = stuck
split3np2 (suc fuel) ctype r =
    let i = first_nonzero 9 1 r in
    let triplet = split3np2 fuel ctype (take_triplet r i) >>= λ (b, r'). ok (b, put_triplet r' i) in
    let run = split3np2 fuel ctype (take_run r i) >>= λ (b, r'). ok (b, put_run r' i) in
    if r 0 == 0
    then ok (true, r)
    else (if leb 10 i
        then panic
        else (if leb 3 (r i)
            then triplet
            else (if not (ctype == 3) && ltb i 8 && ltb 0 (r (i + 1)) && ltb 0 (r (i + 2))
                then run
                else ok (false, r))))

-- The call on suit index `ctype`, with one more unit of fuel than the suit has tiles.
abbrev pub split_suit : ℕ → Row → Outcome (Bool × Row)
split_suit ctype r = split3np2 (suc (r 0)) ctype r

-- firstLevel's first loop: `none` is a break before the fourth suit, else the suit of the pair and
-- whether one was met.
unfoldable pub pair_suit_loop : ℕ → ℕ → ℕ → Bool → HuAnalyser001 → Option (ℕ × Bool)
pair_suit_loop zero x jiang_pos jiang_existed ha = some (jiang_pos, jiang_existed)
pair_suit_loop (suc n) x jiang_pos jiang_existed ha =
    let yu_shu = ha.all_pai x 0 % 3 in
    let rest =
      pair_suit_loop n (x + 1) (if yu_shu == 2 then x else jiang_pos) (jiang_existed || yu_shu == 2)
        ha in
    if yu_shu == 1 || (yu_shu == 2 && jiang_existed) then none else rest

-- firstLevel's second loop, over the suits without the pair.
unfoldable pub others_loop : ℕ → ℕ → ℕ → HuAnalyser001 → Outcome (Bool × HuAnalyser001)
others_loop zero k jiang_pos ha = ok (true, ha)
others_loop (suc n) k jiang_pos ha =
    let next = others_loop n (k + 1) jiang_pos in
    let tried = split_suit k (ha.all_pai k) >>= λ (s, row).
    let ha' = set_row ha k row in if s then next ha' else ok (false, ha') in
    if k == jiang_pos then next ha else tried

abbrev pub take_pair : Row → ℕ → Row
take_pair r z = let r' = update r z (r z - 2) in update r' 0 (r' 0 - 2)

abbrev pub put_pair : Row → ℕ → Row
put_pair r z = let r' = update r z (r z + 2) in update r' 0 (r' 0 + 2)

-- firstLevel's third loop, over the values of the pair.
unfoldable pub pair_loop : ℕ → ℕ → ℕ → HuAnalyser001 → Outcome (Bool × HuAnalyser001)
pair_loop zero z jiang_pos ha = ok (false, ha)
pair_loop (suc n) z jiang_pos ha =
    let next = pair_loop n (z + 1) jiang_pos in
    let row = ha.all_pai jiang_pos in
    let tried = split_suit jiang_pos (take_pair row z) >>= λ (s, row').
    let ha' = set_row ha jiang_pos (put_pair row' z) in if s then ok (true, ha') else next ha' in
    if leb 2 (row z) then tried else next ha

unfoldable pub first_level : HuAnalyser001 → Outcome (Bool × HuAnalyser001)
first_level ha = elim (pair_suit_loop 4 0 0 false ha) [
  | none ↦ ok (false, ha)
  | some (jiang_pos, jiang_existed) ↦ others_loop 4 0 jiang_pos ha >>= λ (s, ha').
      let paired = pair_loop 9 1 jiang_pos ha' in if s then paired else ok (false, ha')
]
