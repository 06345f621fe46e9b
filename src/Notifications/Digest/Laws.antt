-- ===== src/Notifications/Digest/Laws.antt =====
-- The windows of the digests and the days on which they are due.
use growthmind.Prelude.{
  ℕ, zero, suc, ◌+◌, ◌*◌, ◌/◌, ◌≤◌, ◌<◌, ◌≡◌, refl, ◌⊎◌, inl, inr, false, Bool-cases, leb, leb→le,
  some, List, [], ◌∷◌, filter, length, ap, arith,
}
use growthmind.Notifications.Digest.{
  Weekday, monday, tuesday, wednesday, thursday, friday, saturday, sunday, day_ms,
  notification_window_days, utc_day, weekday_by_utc_day, same_weekday, digest_day_matches,
  digest_window_end, digest_window_start,
}

abbrev pub weekdays : List Weekday
weekdays = monday ∷ tuesday ∷ wednesday ∷ thursday ∷ friday ∷ saturday ∷ sunday ∷ []

one_weekday : (n : ℕ) → length (filter (same_weekday (weekday_by_utc_day n)) weekdays) ≡ 1
one_weekday zero = refl
one_weekday (suc zero) = refl
one_weekday (suc (suc zero)) = refl
one_weekday (suc (suc (suc zero))) = refl
one_weekday (suc (suc (suc (suc zero)))) = refl
one_weekday (suc (suc (suc (suc (suc zero))))) = refl
one_weekday (suc (suc (suc (suc (suc (suc n)))))) = refl

-- A digest is due on one weekday of every instant, and on the same one a week later.
pub digest_day_matches-weekdays :
    (at : ℕ)
    → (length (filter (λ day. digest_day_matches day at) weekdays) ≡ 1)
      × ((day : Weekday) → digest_day_matches day (at + 7 * day_ms) ≡ digest_day_matches day at)
unfolding digest_day_matches
digest_day_matches-weekdays at =
    let same_day : utc_day (at + 7 * day_ms) ≡ utc_day at = omega arith in
    (one_weekday (utc_day at), λ day. ap (λ n. same_weekday (weekday_by_utc_day n) day) same_day)

-- The end of a window is the start of the day, and the same for every run on that day.
pub digest_window_end_lem :
    (at later : ℕ)
    → at / day_ms ≡ later / day_ms
    → (digest_window_end at ≡ digest_window_end later)
      × (digest_window_end at ≤ at)
      × (at < digest_window_end at + day_ms)
digest_window_end_lem at later h = (omega (arith, h), omega arith, omega arith)

above : (a b : ℕ) → leb a b ≡ false → b < a
above a b h = ground arith

window_starts :
    (last at : ℕ)
    → ((digest_window_end at ≤ digest_window_end last + notification_window_days * day_ms)
        × (digest_window_start (some last) (digest_window_end at) ≡ digest_window_end last))
      ⊎ ((digest_window_end last + notification_window_days * day_ms < digest_window_end at)
          × (digest_window_start (some last) (digest_window_end at)
                + notification_window_days * day_ms
              ≡ digest_window_end at))
unfolding digest_window_start
window_starts last at =
    let floor = digest_window_end last + notification_window_days * day_ms in
    elim (Bool-cases (leb (digest_window_end at) floor)) [
      | inl e ↦ let near = leb→le (digest_window_end at) floor e in inl (near, omega (arith, near))
      | inr e ↦ let far = above (digest_window_end at) floor e in inr (far, omega (arith, far))
    ]

-- A window that ends at the start of a day, after a last digest that was not later, is no longer than
-- thirty days and does not end before it starts. It starts where the window of the last digest ended,
-- if that is no more than thirty days before, and thirty days before its own end otherwise.
pub digest_window_start_lem :
    (last at : ℕ)
    → last ≤ at
    → (digest_window_start (some last) (digest_window_end at) ≤ digest_window_end at)
      × (digest_window_end at
          ≤ digest_window_start (some last) (digest_window_end at)
            + notification_window_days * day_ms)
      × (((digest_window_end at ≤ digest_window_end last + notification_window_days * day_ms)
            × (digest_window_start (some last) (digest_window_end at) ≡ digest_window_end last))
          ⊎ ((digest_window_end last + notification_window_days * day_ms < digest_window_end at)
              × (digest_window_start (some last) (digest_window_end at)
                    + notification_window_days * day_ms
                  ≡ digest_window_end at)))
unfolding digest_window_start
digest_window_start_lem last at h = (omega (arith, h), omega (arith, h), window_starts last at)
