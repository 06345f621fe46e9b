-- ===== src/Counts/Laws.antt =====
-- packages/core/src/counts/measured-count.ts: the inputs that a count can be built from, and the counts.
use growthmind.Prelude.{
  ◌∙◌, sym, ◌+◌, ◌≤◌, ◌≡◌, refl, ap, ◌↔◌, List, [], ◌∷◌, map, true, some, arith,
}
use growthmind.Counts.{
  CountBasis, MeasuredCount, MeasuredCountInput, SetAsideBasis, set_aside_total, copy_row, counted,
  labels_present, measured_count,
}

-- A basis that accounts for every session of its window.
pub record IsAccounted (b : CountBasis) : Type 0 where
  pub accounted : b.kept + set_aside_total b.set_aside ≡ b.total_in_window
  pub unchecked_within : b.kept_unchecked ≤ b.kept

pub record IsMeasured (c : MeasuredCount) : Type 0 where
  pub basis_accounted : IsAccounted c.basis
  pub denominator_kept : c.denominator ≡ c.basis.kept
  pub numerator_within : c.numerator ≤ c.denominator

-- What a caller has to hand over.
pub record IsCountable (i : MeasuredCountInput) : Type 0 where
  pub labelled : labels_present i.basis ≡ true
  pub input_accounted : IsAccounted i.basis
  pub over_kept : i.denominator ≡ i.basis.kept
  pub within : i.numerator ≤ i.denominator

pub map-copy_row : (rows : List SetAsideBasis) → map copy_row rows ≡ rows
map-copy_row [] = refl
map-copy_row (row ∷ rows) = ap (λ rs. row ∷ rs) (map-copy_row rows)

-- Copying the rows of the basis changes nothing.
pub counted-basis : (i : MeasuredCountInput) → (counted i).basis ≡ i.basis
counted-basis i =
    ap (λ rows. record (i.basis) { set_aside = rows }) (map-copy_row i.basis.set_aside)

pub measured_count_sound :
    (i : MeasuredCountInput) {c : MeasuredCount}
    → measured_count i ≡ some c
    → IsCountable i × (c ≡ counted i)
unfolding measured_count
measured_count_sound i h = ground arith

pub measured_count_complete :
    (i : MeasuredCountInput) → IsCountable i → measured_count i ≡ some (counted i)
unfolding measured_count
measured_count_complete i h = ground arith

-- A count that carries the values of an input.
pub record HasValuesOf (i : MeasuredCountInput) (c : MeasuredCount) : Type 0 where
  pub same_numerator : c.numerator ≡ i.numerator
  pub same_denominator : c.denominator ≡ i.denominator
  pub same_unit : c.unit ≡ i.unit
  pub same_timeframe : c.timeframe ≡ i.timeframe
  pub same_basis : c.basis ≡ i.basis

pub counted-HasValuesOf : (i : MeasuredCountInput) → HasValuesOf i (counted i)
counted-HasValuesOf i = record {
  same_numerator = refl;
  same_denominator = refl;
  same_unit = refl;
  same_timeframe = refl;
  same_basis = counted-basis i;
}

HasValuesOf-counted : (i : MeasuredCountInput) (c : MeasuredCount) → HasValuesOf i c → c ≡ counted i
HasValuesOf-counted i c h = ground (
  arith,
  h.same_numerator,
  h.same_denominator,
  h.same_unit,
  h.same_timeframe,
  h.same_basis,
  counted-basis i,
)

-- A count is built from an input exactly if the basis of the input accounts for every session of the
-- window, its unchecked sessions are among those kept, its denominator is the kept sessions, its
-- numerator does not exceed it and its labels are not empty, and the count has the numerator, the
-- denominator, the unit, the timeframe and the basis of the input.
pub measured_count_iff :
    (i : MeasuredCountInput) (c : MeasuredCount)
    → (measured_count i ≡ some c) ↔ (IsCountable i × HasValuesOf i c)
measured_count_iff i c = (
  (λ h. let (countable, e) = measured_count_sound i h in (countable, rw e (counted-HasValuesOf i))),
  (λ h. measured_count_complete i h.0 ∙ ap some (sym (HasValuesOf-counted i c h.1))),
)

-- Every count that the constructor returns is accounted for: its numerator is at most its
-- denominator, its denominator is the kept sessions of its basis, and the kept and the set-aside
-- sessions make up the window.
pub measured_count-IsMeasured :
    (i : MeasuredCountInput) {c : MeasuredCount} → measured_count i ≡ some c → IsMeasured c
measured_count-IsMeasured i {c} h =
    let (v, e) = measured_count_sound i h in ground (arith, map-copy_row i.basis.set_aside)
