-- ===== src/Review/Choices/Selected.antt =====
-- What the whole review selects, answer by answer.
use pkgundo.Prelude.{
  Text, ◌||◌, List, [], ◌∷◌, ◌++◌, map, ok, any, ◌≡◌, refl, arith, ◌∙◌, sym, ap, subst,
}
use pkgundo.Paths.{PathBuf, path_eq}
use pkgundo.Review.{
  MutationGroup, insert_default, groups_after, insert_defaults, asking, review_from, review_groups,
}
use pkgundo.Review.Choices.{
  Choice, by_default, removed, kept, Ending, no_more, all_removed, all_kept, line_of, last_lines,
  IsLowercase, chosen, chosen_after, is_selected, AreOthers, groups_after-append,
  insert_default-selected, Selects, or_assoc, or_false, default_first, nothing_left, removing_all,
  keeping_all, ended-eq, default-eq, removed-eq, kept-eq, all_removed-eq, all_kept-eq,
}

module _ (lower : Text → Text) (small : IsLowercase lower) (all : List MutationGroup) where
  module _ (gs : List MutationGroup)
      (follows : (g : MutationGroup) (more : List MutationGroup)
        → gs ≡ g ∷ more
        → groups_after g.key all ≡ more) where
    ending-Selects :
        (end : Ending) (selected : List PathBuf) (left : List MutationGroup)
        → gs ≡ left
        → Selects selected
            (chosen_after end left)
            (review_from lower all asking left selected (last_lines end))
    unfolding Selects chosen_after last_lines
    ending-Selects no_more selected [] is =
        (selected, (nothing_left lower small all selected [], λ k. refl))
    ending-Selects all_removed selected [] is =
        (selected, (nothing_left lower small all selected (last_lines all_removed), λ k. refl))
    ending-Selects all_kept selected [] is =
        (selected, (nothing_left lower small all selected (last_lines all_kept), λ k. refl))
    ending-Selects no_more selected (g ∷ more) is = (
      insert_defaults more (insert_default g selected),
      (
        ended-eq lower small all g more selected
            ∙ ap (λ after. ok (insert_defaults after (insert_default g selected)))
                (follows g more is),
        λ k. default_first g more selected k,
      ),
    )
    ending-Selects all_removed selected (g ∷ more) is =
        let (result, (e, same)) = removing_all lower small all more (g.key ∷ selected) [] in
        (
          result,
          (
            all_removed-eq lower small all g more selected [] ∙ e,
            λ k.
                same k
                ∙ or_assoc (chosen_after all_removed more k) (path_eq g.key k)
                    (is_selected k selected),
          ),
        )
    ending-Selects all_kept selected (g ∷ more) is = (
      selected,
      (
        all_kept-eq lower small all g more selected []
            ∙ keeping_all lower small all more selected [],
        λ k. refl,
      ),
    )

    choices-Selects :
        (cs : List (MutationGroup × Choice)) (end : Ending) (selected : List PathBuf)
        → Selects selected
            (λ k. chosen cs k || chosen_after end gs k)
            (review_from lower all asking
              (map (λ c. c.0) cs ++ gs)
              selected
              (map (λ c. line_of c.1) cs ++ last_lines end))
    unfolding Selects chosen
    choices-Selects [] end selected = ending-Selects end selected gs refl
    choices-Selects ((g, by_default) ∷ cs) end selected =
        let (result, (e, same)) = choices-Selects cs end (insert_default g selected) in
        (
          result,
          (
            default-eq lower small all g (map (λ c. c.0) cs ++ gs) selected _ ∙ e,
            λ k. ground (arith, same k, insert_default-selected g selected k),
          ),
        )
    choices-Selects ((g, removed) ∷ cs) end selected =
        let (result, (e, same)) = choices-Selects cs end (g.key ∷ selected) in
        (
          result,
          (
            removed-eq lower small all g (map (λ c. c.0) cs ++ gs) selected _ ∙ e,
            λ k. ground (arith, same k),
          ),
        )
    choices-Selects ((g, kept) ∷ cs) end selected =
        let (result, (e, same)) = choices-Selects cs end selected in
        (result, (kept-eq lower small all g (map (λ c. c.0) cs ++ gs) selected _ ∙ e, same))

head_follows :
    (cs : List (MutationGroup × Choice)) (gs : List MutationGroup)
    → AreOthers cs gs
    → (g : MutationGroup) (more : List MutationGroup) → gs ≡ g ∷ more
    → groups_after g.key (map (λ c. c.0) cs ++ gs) ≡ more
head_follows cs gs others g more is =
    let others' : AreOthers cs (g ∷ more) = subst (AreOthers cs) is others in
    subst (λ xs. groups_after g.key (map (λ c. c.0) cs ++ xs) ≡ more) (sym is)
      (groups_after-append cs g more others'.0)

-- A review in which some first groups are answered one by one, by the empty line, "r" or "k", and then
-- the input ends or "a" or "s" is answered, succeeds, and selects exactly the keys of these groups: of
-- the first ones those answered by "r", and those answered by the empty line and suggested for removal;
-- of the others those suggested for removal where the input ends, all of them after "a", and none after
-- "s". The other groups are assumed to have other keys than the first ones.
pub review_groups_selects :
    (lower : Text → Text) (cs : List (MutationGroup × Choice)) (gs : List MutationGroup)
    (end : Ending) (k : PathBuf)
    → IsLowercase lower
    → AreOthers cs gs
    → (selected : List PathBuf) × ((review_groups lower
            (map (λ c. c.0) cs ++ gs)
            (map (λ c. line_of c.1) cs ++ last_lines end)
          ≡ ok selected)
        × (any (λ j. path_eq j k) selected ≡ (chosen cs k || chosen_after end gs k)))
unfolding review_groups Selects
review_groups_selects lower cs gs end k small others =
    let all = map (λ c. c.0) cs ++ gs in
    let (selected, (e, same)) =
      choices-Selects lower small all gs (head_follows cs gs others) cs end [] in
    (selected, (e, same k ∙ or_false (chosen cs k || chosen_after end gs k)))
