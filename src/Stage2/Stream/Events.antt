-- ===== src/Stage2/Stream/Events.antt =====
-- src/llm_inference_systems/stage2_protocol.py, Stage2StreamValidator: the list of token events when
-- one more event is recorded.
use llm_inference_systems.Prelude.{
  ℕ, ◌≤◌, ◌≡◌, refl, Bool, true, false, ◌&&◌, ◌||◌, Option, none, some, List, [], ◌∷◌, ◌++◌, arith,
  leb, if◌then◌else◌, all, any, is_sorted,
}
use mathlib.Core.List.{append_assoc}
use llm_inference_systems.Stage2.Evidence.{TokenEvent, all_ids, all_text, offsets, final_terminal}

abbrev pub is_terminal : TokenEvent → Bool
is_terminal e = e.terminal

pub all_ids-append :
    (events more : List TokenEvent) → all_ids (events ++ more) ≡ all_ids events ++ all_ids more
all_ids-append [] more = refl
all_ids-append (e ∷ events) more = rw (all_ids-append events more, append_assoc)

pub all_text-append :
    (events more : List TokenEvent) → all_text (events ++ more) ≡ all_text events ++ all_text more
all_text-append [] more = refl
all_text-append (e ∷ events) more = rw (all_text-append events more, append_assoc)

-- A time that is not before any of the earlier ones.
pub is_sorted-append :
    (events : List TokenEvent) (e : TokenEvent) (last : ℕ)
    → is_sorted (offsets events) ≡ true
    → all (λ o. leb o last) (offsets events) ≡ true
    → last ≤ e.observation_offset_ns
    → is_sorted (offsets (events ++ e ∷ [])) ≡ true
is_sorted-append [] e last s b h = refl
is_sorted-append (f ∷ []) e last s b h = ground arith
is_sorted-append (f ∷ g ∷ events) e last s b h =
    ground (arith, is_sorted-append (g ∷ events) e last)

-- Between the first body bytes and the last observation.
abbrev pub within : Option ℕ → ℕ → ℕ → Bool
within none high o = false
within (some low) high o = leb low o && leb o high

pub within-append :
    (events : List TokenEvent) (e : TokenEvent) (low : Option ℕ) (high : ℕ)
    → all (within low high) (offsets events) ≡ true
    → within low high e.observation_offset_ns ≡ true
    → all (within low high) (offsets (events ++ e ∷ [])) ≡ true
within-append [] e low high b h = rw h
within-append (f ∷ events) e low high b h = ground (arith, within-append events e low high)

pub within_mono :
    (times : List ℕ) (low : Option ℕ) (high higher : ℕ)
    → high ≤ higher
    → all (within low high) times ≡ true
    → all (within low higher) times ≡ true
within_mono [] low high higher h b = refl
within_mono (t ∷ times) none high higher h b = b
within_mono (t ∷ times) (some l) high higher h b =
    ground (arith, within_mono times (some l) high higher)

pub within_high :
    (times : List ℕ) (low : Option ℕ) (high : ℕ)
    → all (within low high) times ≡ true
    → all (λ o. leb o high) times ≡ true
within_high [] low high b = refl
within_high (t ∷ times) none high b = cc
within_high (t ∷ times) (some l) high b = ground (arith, within_high times (some l) high)

pub final_terminal-append :
    (events : List TokenEvent) (e : TokenEvent)
    → any is_terminal events ≡ false
    → final_terminal (events ++ e ∷ []) ≡ (if e.terminal then some e else none)
unfolding final_terminal
final_terminal-append [] e h = refl
final_terminal-append (f ∷ []) e h = ground arith
final_terminal-append (f ∷ g ∷ events) e h = ground (arith, final_terminal-append (g ∷ events) e)

pub any-append {ℓ} :
    {A : Type ℓ} (test : A → Bool) (xs : List A) (x : A)
    → any test (xs ++ x ∷ []) ≡ (any test xs || test x)
any-append test [] x = ground arith
any-append test (y ∷ xs) x = ground (arith, any-append test xs x)
