-- ===== src/Mahjong/Hand.antt =====
-- component/mjana/mjana.go: init, recursive3np2, Split001, Split002, AnalyzeNormalCardsOpt: the
-- analysis of a hand without wild cards by the counters of HuAnalyser001.
pub mod Counting
pub mod Normal
use common_fw.Common.{
  ℕ, ◌+◌, ◌-◌, Bool, true, false, not, ◌&&◌, ◌||◌, List, [], ◌∷◌, ltb, leb, ◌==◌, if◌then◌else◌,
  Outcome, ok, panic, stuck, ◌>>=◌,
}
use common_fw.Mahjong.Cards.{CardInformation, CardTypes, is_7_dui}
use common_fw.Mahjong.Analyser.{HuAnalyser001, Row, update, set_row, first_level}

-- AllPai[t-1][v]++; AllPai[t-1][0]++
abbrev pub bump : Row → ℕ → Row
bump r v = let r' = update r v (r v + 1) in update r' 0 (r' 0 + 1)

-- &HuAnalyser001{AllPai: [4][10]int32{}}
abbrev pub new_analyser : HuAnalyser001
new_analyser = record { all_pai = λ k v. 0 }

module _ (ct : CardTypes) where
  -- The condition under which `init` returns.
  abbrev pub rejected : CardInformation → Bool
  rejected c =
      (ltb c.type ct.w || ltb ct.s c.type || ltb c.value 1 || ltb 9 c.value)
      && (not (c.type == ct.z) || ltb c.value 1 || ltb 7 c.value)

  -- Stops at the first card that is no tile; an index `type - 1` outside of the four suits panics.
  unfoldable pub init : List CardInformation → HuAnalyser001 → Outcome HuAnalyser001
  init [] ha = ok ha
  init (c ∷ cs) ha =
      let rest = init cs (set_row ha (c.type - 1) (bump (ha.all_pai (c.type - 1)) c.value)) in
      if rejected c then ok ha else (if leb 1 c.type && leb c.type 4 then rest else panic)

  unfoldable pub recursive3np2 :
      List CardInformation → HuAnalyser001 → Outcome (Bool × HuAnalyser001)
  recursive3np2 ts ha = init ts ha >>= first_level

  unfoldable pub split001 : List CardInformation → HuAnalyser001 → Outcome (Bool × HuAnalyser001)
  split001 ts ha = is_7_dui ts >>= λ dui. if dui then ok (true, ha) else recursive3np2 ts ha

  unfoldable pub split002 : List CardInformation → HuAnalyser001 → Outcome (Bool × HuAnalyser001)
  split002 ts ha = recursive3np2 ts ha >>= λ (r, ha'). if r then ok (true, ha') else ok (false, ha')

  unfoldable pub analyze_normal_cards_opt : List CardInformation → Outcome Bool
  analyze_normal_cards_opt hand_cards = split001 hand_cards new_analyser >>= λ (is_hu, ha). ok is_hu
