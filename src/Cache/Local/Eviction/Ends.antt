-- ===== src/Cache/Local/Eviction/Ends.antt =====
-- The rounds of the eviction come to an end, and only remove rows.
use jo_ei.Prelude.{
  ℕ, zero, suc, ◌+◌, ◌-◌, ◌≤◌, ◌<◌, ◌≡◌, refl, ap, ◌∙◌, inl, inr, Bool, true, false, not, ◌&&◌,
  List, Option, none, some, In, length, arith, Bool-cases, ltb, leb, if◌then◌else◌,
}
use jo_ei.Cache.Index.{Row, total_size_bytes}
use jo_ei.Cache.Local.{LocalState, attempt}
use jo_ei.Cache.Local.Stored.{rows-attempt}
use jo_ei.Cache.Local.Eviction.{
  evict_round, evict_loop, evict_to_size, started, stops, later_readings,
}
use jo_ei.Cache.Local.Eviction.Rounds.{Fewer, Fewer-same, Fewer-trans, Round, evict_round-Round}

Round-Fewer : (s : LocalState) (res : Option ℕ × LocalState) → Round s res → Fewer res.1.rows s.rows
Round-Fewer s (none, t) h = h
Round-Fewer s (some total, t) h = h.0

loop-Fewer :
    (fuel maximum : ℕ) (cancelled : List Bool) (s : LocalState) (res : Option ℕ × LocalState)
    → Fewer res.1.rows s.rows
    → Fewer (evict_loop fuel maximum cancelled res).rows s.rows
loop-Fewer fuel maximum cancelled s (none, t) h = h
loop-Fewer zero maximum cancelled s (some total, t) h = h
loop-Fewer (suc fuel) maximum cancelled s (some total, t) h =
    elim (Bool-cases (ltb maximum total && not (stops cancelled))) [
      | inl on ↦ rw on (
          Fewer-trans _ _ _
            (loop-Fewer fuel maximum (later_readings cancelled) t (evict_round t)
              (Round-Fewer t (evict_round t) (evict_round-Round t)))
            h)
      | inr off ↦ rw off h
    ]

-- With more fuel than there are rows, one unit more changes nothing.
loop_fuel :
    (fuel maximum : ℕ) (cancelled : List Bool) (s : LocalState) (res : Option ℕ × LocalState)
    → Round s res
    → length s.rows ≤ fuel
    → evict_loop (suc fuel) maximum cancelled res ≡ evict_loop fuel maximum cancelled res
loop_fuel fuel maximum cancelled s (none, t) h k = refl
loop_fuel zero maximum cancelled s (some total, t) h k = absurd (omega (arith, h.1, k))
loop_fuel (suc fuel) maximum cancelled s (some total, t) h k =
    let rest =
      loop_fuel fuel maximum (later_readings cancelled) t (evict_round t) (evict_round-Round t)
        (omega (arith, h.1, k)) in
    ap (λ u. if ltb maximum total && not (stops cancelled) then u else t) rest

start_fuel :
    (fuel maximum total : ℕ) (cancelled : List Bool) (s : LocalState)
    → length s.rows ≤ fuel
    → evict_loop (suc (suc fuel)) maximum cancelled (some total, s)
      ≡ evict_loop (suc fuel) maximum cancelled (some total, s)
start_fuel fuel maximum total cancelled s k =
    ap (λ u. if ltb maximum total && not (stops cancelled) then u else s)
      (loop_fuel fuel maximum (later_readings cancelled) s (evict_round s) (evict_round-Round s) k)

more_fuel :
    (extra fuel maximum total : ℕ) (cancelled : List Bool) (s : LocalState)
    → fuel ≡ extra + suc (length s.rows)
    → evict_loop fuel maximum cancelled (some total, s)
      ≡ evict_loop (suc (length s.rows)) maximum cancelled (some total, s)
more_fuel zero fuel maximum total cancelled s e =
    ap (λ n. evict_loop n maximum cancelled (some total, s)) {x = fuel} {y = suc (length s.rows)}
      (omega arith)
more_fuel (suc extra) fuel maximum total cancelled s e =
    ap (λ n. evict_loop n maximum cancelled (some total, s)) {x = fuel}
      {y = suc (suc (extra + length s.rows))} (omega arith)
    ∙ start_fuel (extra + length s.rows) maximum total cancelled s (omega arith)
    ∙ more_fuel extra (suc (extra + length s.rows)) maximum total cancelled s (omega arith)

-- The fuel of the eviction loop is enough, whatever calls fail: any number of rounds greater than
-- the number of rows gives the same result as one more than that number.
pub evict_rounds_end :
    (fuel maximum total : ℕ) (cancelled : List Bool) (s : LocalState)
    → length s.rows < fuel
    → evict_loop fuel maximum cancelled (some total, s)
      ≡ evict_loop (suc (length s.rows)) maximum cancelled (some total, s)
evict_rounds_end fuel maximum total cancelled s h =
    more_fuel (fuel - suc (length s.rows)) fuel maximum total cancelled s (omega arith)

started-Fewer :
    (fuel maximum : ℕ) (cancelled : List Bool) (s : LocalState) (res : Bool × LocalState)
    → res.1.rows ≡ s.rows
    → Fewer (started fuel maximum cancelled res).rows s.rows
unfolding started
started-Fewer fuel maximum cancelled s (false, t) e = Fewer-same _ _ e
started-Fewer fuel maximum cancelled s (true, t) e =
    elim (Bool-cases (leb (total_size_bytes t.rows) maximum)) [
      | inl fits ↦ rw fits (Fewer-same _ _ e)
      | inr over ↦ rw over (
          loop-Fewer fuel maximum cancelled s (some (total_size_bytes t.rows), t)
            (Fewer-same _ _ e))
    ]

-- An eviction adds no row and changes none, whatever calls fail.
pub evict_to_size_removes :
    (maximum : ℕ) (cancelled : List Bool) (s : LocalState) (row : Row)
    → In row (evict_to_size maximum cancelled s).rows
    → In row s.rows
unfolding evict_to_size
evict_to_size_removes maximum cancelled s row i =
    (started-Fewer (suc (length s.rows)) maximum cancelled s (attempt s) (rows-attempt s)).1 row i
