-- ===== src/Classifier/Protection.antt =====
-- Which paths `classify_path` and `rollback_action_for_category` protect.
use pkgundo.Prelude.{Text, lit, starts_with, text_eq, text_eq_iff}
use pkgundo.Prelude.{starts_with_split, starts_with-append, Bool-cases}
use pkgundo.Prelude.{Bool, true, ◌||◌, ◌≡◌, refl, ◌≢◌, ◌↔◌, ◌⊎◌, inl, inr, ◌++◌, arith, ap}
use pkgundo.Classifier.{
  FileCategory, user_data, is_home, classify_system, classify_path, never_touch,
  rollback_action_for_category,
}

-- `/home`, `/root` and everything below them.
abbrev pub InHome : Text → Type 0
InHome p =
    ((p ≡ lit "/home") ⊎ ((r : Text) × (p ≡ lit "/home/" ++ r)))
    ⊎ ((p ≡ lit "/root") ⊎ ((r : Text) × (p ≡ lit "/root/" ++ r)))

below_or_at :
    (p dir slash : Text)
    → (starts_with p slash || text_eq p dir) ≡ true
    → (p ≡ dir) ⊎ ((r : Text) × (p ≡ slash ++ r))
below_or_at p dir slash h = elim (Bool-cases (starts_with p slash)) [
  | inl yes_prefix ↦ inr (starts_with_split p slash yes_prefix)
  | inr no_prefix ↦ inl ((text_eq_iff p dir).0 (ground arith))
]

at_or_below :
    (p dir slash : Text)
    → (p ≡ dir) ⊎ ((r : Text) × (p ≡ slash ++ r))
    → (starts_with p slash || text_eq p dir) ≡ true
at_or_below p dir slash (inl e) = ground (arith, text_eq_iff p dir)
at_or_below p dir slash (inr (r, e)) = rw (e, starts_with-append slash r) refl

or_true : (a b : Bool) → (a || b) ≡ true → (a ≡ true) ⊎ (b ≡ true)
or_true a b h = ground arith

is_home_iff : (p : Text) → (is_home p ≡ true) ↔ InHome p
unfolding is_home
is_home_iff p = (
  λ h. elim (or_true _ _ h) [
    | inl a ↦ inl (below_or_at p (lit "/home") (lit "/home/") a)
    | inr b ↦ inr (below_or_at p (lit "/root") (lit "/root/") b)
  ],
  λ h. elim h [
    | inl a ↦ ground (arith, at_or_below p (lit "/home") (lit "/home/") a)
    | inr b ↦ ground (arith, at_or_below p (lit "/root") (lit "/root/") b)
  ],
)

classify_system-ne-user_data : (d : Bool) (p : Text) → classify_system d p ≢ user_data
unfolding classify_system
classify_system-ne-user_data d p = ground arith

-- Whatever the disk says, a path is user data exactly when it is `/home`, `/root` or below.
pub classify_path-eq-user_data_iff :
    (d : Bool) (p : Text) → (classify_path d p ≡ user_data) ↔ InHome p
unfolding classify_path
classify_path-eq-user_data_iff d p = elim (Bool-cases (is_home p)) [
  | inl home ↦ (λ _. (is_home_iff p).0 home, λ _. rw home refl)
  | inr away ↦
      (λ h. absurd (classify_system-ne-user_data d p (rw away at h)), λ h. cc ((is_home_iff p).1 h))
]

never_touch_only : (c : FileCategory) → rollback_action_for_category c ≡ never_touch → c ≡ user_data
unfolding rollback_action_for_category
never_touch_only c h = ground arith

-- The action that never touches a file is given to exactly the paths at or below a home.
pub action-eq-never_touch_iff :
    (d : Bool) (p : Text)
    → (rollback_action_for_category (classify_path d p) ≡ never_touch) ↔ InHome p
unfolding rollback_action_for_category
action-eq-never_touch_iff d p =
    let both = classify_path-eq-user_data_iff d p in
    (
      λ h. both.0 (never_touch_only (classify_path d p) h),
      λ h. ap rollback_action_for_category (both.1 h),
    )
