-- ===== src/UserTracker/Diff.antt =====
-- What `diff_snapshots` finds.
use pkgundo.Prelude.{
  Text, lit, text_eq, true, ℕ, List, [], ◌∷◌, some, ◌≡◌, refl, Bool, false, ◌++◌, ◌||◌, ◌&&◌,
  Bool-cases, inl, inr, text_eq_iff, text_eq_refl, arith,
}
use pkgundo.UserTracker.{
  UserEventKind, user_added, user_removed, user_modified, group_added, group_removed,
  group_modified, UserEvent, UserGroupSnapshot, has_line, changed, added, removed, diff_snapshots,
  kind_name, kind_of_name, is_entry, name_of,
}

-- A kind is read back from its name.
pub kind_of_name-kind_name : (k : UserEventKind) → kind_of_name (kind_name k) ≡ some k
unfolding kind_of_name kind_name text_eq lit
kind_of_name-kind_name user_added = refl
kind_of_name-kind_name user_removed = refl
kind_of_name-kind_name user_modified = refl
kind_of_name-kind_name group_added = refl
kind_of_name-kind_name group_removed = refl
kind_of_name-kind_name group_modified = refl

-- Every line of the first list stands in the second.
abbrev pub Within : List Text → List Text → Type 0
Within [] those = Unit
Within (l ∷ ls) those = (has_line those l ≡ true) × Within ls those

changed-nil :
    (event : Text → Text → UserEvent) (these those : List Text)
    → Within these those
    → changed event these those ≡ []
unfolding changed
changed-nil event [] those _ = refl
changed-nil event (line ∷ these) those (found, h) = rw found (changed-nil event these those h)

-- Snapshots with the same lines, in whatever order and number, give no event.
pub diff_snapshots-eq-nil :
    (txid : ℕ) (stamp : Text) (before after : UserGroupSnapshot)
    → Within after.passwd_lines before.passwd_lines
    → Within before.passwd_lines after.passwd_lines
    → Within after.group_lines before.group_lines
    → Within before.group_lines after.group_lines
    → diff_snapshots txid stamp before after ≡ []
unfolding diff_snapshots
diff_snapshots-eq-nil txid stamp before after a b c d =
    rw
      (
        changed-nil (added txid stamp user_added) after.passwd_lines before.passwd_lines a,
        changed-nil (removed txid stamp user_removed) before.passwd_lines after.passwd_lines b,
        changed-nil (added txid stamp group_added) after.group_lines before.group_lines c,
        changed-nil (removed txid stamp group_removed) before.group_lines after.group_lines d,
      )
      refl

is_user_added : UserEventKind → Bool
is_user_added user_added = true
is_user_added _ = false

-- One of the events adds a user of this name.
pub adds_user : Text → List UserEvent → Bool
adds_user name [] = false
adds_user name (e ∷ events) = (is_user_added e.kind && text_eq e.name name) || adds_user name events

adds_user-append :
    (name : Text) (es fs : List UserEvent)
    → adds_user name es ≡ true
    → adds_user name (es ++ fs) ≡ true
unfolding adds_user
adds_user-append name [] fs h = absurd (cc h)
adds_user-append name (e ∷ es) fs h = ground (arith, adds_user-append name es fs)

changed-adds_user :
    (txid : ℕ) (stamp line : Text) (these those : List Text)
    → has_line these line ≡ true
    → has_line those line ≡ false
    → is_entry (name_of line) ≡ true
    → adds_user (name_of line) (changed (added txid stamp user_added) these those) ≡ true
unfolding adds_user changed has_line added is_user_added
changed-adds_user txid stamp line [] those here there named = absurd (ground arith)
changed-adds_user txid stamp line (l ∷ these) those here there named =
    elim (Bool-cases (text_eq l line)) [
      | inl same ↦ ground (arith, (text_eq_iff l line).0 same, text_eq_refl (name_of line))
      | inr other ↦ ground (arith, changed-adds_user txid stamp line these those)
    ]

-- A line of the users that is only in the second snapshot, and that names something, gives an event
-- which says that a user of this name was added.
pub diff_snapshots-adds_user :
    (txid : ℕ) (stamp line : Text) (before after : UserGroupSnapshot)
    → has_line after.passwd_lines line ≡ true
    → has_line before.passwd_lines line ≡ false
    → is_entry (name_of line) ≡ true
    → adds_user (name_of line) (diff_snapshots txid stamp before after) ≡ true
unfolding diff_snapshots
diff_snapshots-adds_user txid stamp line before after here there named =
    adds_user-append (name_of line)
      (changed (added txid stamp user_added) after.passwd_lines before.passwd_lines) _
      (changed-adds_user txid stamp line after.passwd_lines before.passwd_lines here there named)
