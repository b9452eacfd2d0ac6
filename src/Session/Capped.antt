-- ===== src/Session/Capped.antt =====
-- The suggested bounds stay within the search's bounds and leave a margin.
use autocim_agent.Prelude.{ℕ, ◌≡◌, Bool, true, false, arith, if◌then◌else◌}
use autocim_agent.Prelude.Float.{Float, IsOrder, IsTotal, max_f, min_f}
use autocim_agent.Search
use autocim_agent.Session.{more_precise, more_compressed, bits_margin, pruning_margin}

module _ {F : Type 0} ⦃fl : Float F⦄ (law : IsOrder fl) (total : IsTotal fl) where
  le_refl : (a : F) → fl.le a a ≡ true
  le_refl a = total.le_of_not_lt a a (law.lt-irrefl a)

  min-left : (a b : F) → fl.le (min_f a b) a ≡ true
  min-left a b = ground (arith, le_refl a, law.le_of_lt b a)

  min-right : (a b : F) → fl.le (min_f a b) b ≡ true
  min-right a b = ground (arith, le_refl b, total.le_of_not_lt b a)

  max-left : (a b : F) → fl.le a (max_f a b) ≡ true
  max-left a b = ground (arith, le_refl a, law.le_of_lt a b)

  max-right : (a b : F) → fl.le b (max_f a b) ≡ true
  max-right a b = ground (arith, le_refl b, total.le_of_not_lt a b)

  capped_min :
      (test : Bool) (a x m : F)
      → (let r = (if test then min_f (min_f a x) m else min_f a x) in
          (fl.le r a ≡ true) × (test ≡ true → fl.le r m ≡ true))
  capped_min true a x m =
      (law.le_trans _ _ _ (min-left (min_f a x) m) (min-left a x), λ _. min-right (min_f a x) m)
  capped_min false a x m = (min-left a x, λ e. cc e)

  capped_max :
      (test : Bool) (a x m : F)
      → (let r = (if test then max_f (max_f a x) m else max_f a x) in
          (fl.le a r ≡ true) × (test ≡ true → fl.le m r ≡ true))
  capped_max true a x m =
      (law.le_trans _ _ _ (max-left a x) (max-left (max_f a x) m), λ _. max-right (max_f a x) m)
  capped_max false a x m = (max-left a x, λ e. cc e)

  -- For a miss of accuracy, the suggested least number of bits is at most the search's ceiling, and a
  -- margin below it where the range is that wide; the suggested greatest pruning ratio is at least the
  -- search's floor, and a margin above it where the range is that wide. For comparable numbers.
  pub more_precise-capped :
      (bb pb : Search.Bounds F) (bits pruning : F) (tier : ℕ)
      → (let (least_bits, most_pruning) = more_precise bb pb bits pruning tier in
          (fl.le least_bits bb.1 ≡ true)
          × (fl.le pb.0 most_pruning ≡ true)
          × (fl.le bits_margin (fl.sub bb.1 bb.0) ≡ true
              → fl.le least_bits (fl.sub bb.1 bits_margin) ≡ true)
          × (fl.le pruning_margin (fl.sub pb.1 pb.0) ≡ true
              → fl.le (fl.add pb.0 pruning_margin) most_pruning ≡ true))
  unfolding more_precise
  more_precise-capped (bf, bc) (pf, pc) bits pruning tier =
      let (least, room) =
        capped_min (fl.le bits_margin (fl.sub bc bf)) bc _ (fl.sub bc bits_margin) in
      let (most, room') =
        capped_max (fl.le pruning_margin (fl.sub pc pf)) pf _ (fl.add pf pruning_margin) in
      (least, most, room, room')

  -- For a miss of energy or latency, the suggested greatest number of bits is at least the search's
  -- floor, and a margin above it where the range is that wide; the suggested least pruning ratio is at
  -- most the search's ceiling, and a margin below it where the range is that wide. For comparable
  -- numbers.
  pub more_compressed-capped :
      (bb pb : Search.Bounds F) (bits pruning : F) (tier : ℕ)
      → (let (most_bits, least_pruning) = more_compressed bb pb bits pruning tier in
          (fl.le bb.0 most_bits ≡ true)
          × (fl.le least_pruning pb.1 ≡ true)
          × (fl.le bits_margin (fl.sub bb.1 bb.0) ≡ true
              → fl.le (fl.add bb.0 bits_margin) most_bits ≡ true)
          × (fl.le pruning_margin (fl.sub pb.1 pb.0) ≡ true
              → fl.le least_pruning (fl.sub pb.1 pruning_margin) ≡ true))
  unfolding more_compressed
  more_compressed-capped (bf, bc) (pf, pc) bits pruning tier =
      let (most, room) =
        capped_max (fl.le bits_margin (fl.sub bc bf)) bf _ (fl.add bf bits_margin) in
      let (least, room') =
        capped_min (fl.le pruning_margin (fl.sub pc pf)) pc _ (fl.sub pc pruning_margin) in
      (most, least, room, room')

  -- The bounds suggested for more precision, and those for more compression, stay within the search's
  -- bounds: the least number of bits and the greatest pruning ratio for the former, the greatest number
  -- of bits and the least pruning ratio for the latter. Where a range is at least a margin wide, each
  -- of them leaves that margin to the search. For comparable numbers.
  suggestions_capped :
      (bb pb : Search.Bounds F) (bits pruning : F) (tier : ℕ)
      → (let (least_bits, most_pruning) = more_precise bb pb bits pruning tier in
          (fl.le least_bits bb.1 ≡ true)
          × (fl.le pb.0 most_pruning ≡ true)
          × (fl.le bits_margin (fl.sub bb.1 bb.0) ≡ true
              → fl.le least_bits (fl.sub bb.1 bits_margin) ≡ true)
          × (fl.le pruning_margin (fl.sub pb.1 pb.0) ≡ true
              → fl.le (fl.add pb.0 pruning_margin) most_pruning ≡ true))
        × (let (most_bits, least_pruning) = more_compressed bb pb bits pruning tier in
            (fl.le bb.0 most_bits ≡ true)
            × (fl.le least_pruning pb.1 ≡ true)
            × (fl.le bits_margin (fl.sub bb.1 bb.0) ≡ true
                → fl.le (fl.add bb.0 bits_margin) most_bits ≡ true)
            × (fl.le pruning_margin (fl.sub pb.1 pb.0) ≡ true
                → fl.le least_pruning (fl.sub pb.1 pruning_margin) ≡ true))
  suggestions_capped bb pb bits pruning tier =
      (more_precise-capped bb pb bits pruning tier, more_compressed-capped bb pb bits pruning tier)
