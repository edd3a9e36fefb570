-- ===== src/Pages/Navigation.antt =====
-- The page that the navigation has for each pair of workloads and each configuration.
use cuda_schedule_project.Prelude.{
  ◌<◌, ◌≡◌, refl, subst, inl, inr, false, not, ◌&&◌, ◌||◌, Bool-cases, Option, some, List, [], ◌∷◌,
  All, length, if◌then◌else◌, arith,
}
use cuda_schedule_project.Prelude.Outcome.{Outcome, raises, returns}
use cuda_schedule_project.Prelude.Text.{codes, same_text, same_text→≡}
use cuda_schedule_project.Prelude.Dict.{Text, get, put, get-put, get-put_other}
use cuda_schedule_project.Pages.{
  Run, page_name, NavError, joined, Pairs, slot_of, is_some, add_page, is_skipped, pair_map,
}

-- `pair_map[key][cfg]`
abbrev pub page_at : Pairs → Text → Text → Option Text
page_at pairs key cfg = get cfg (slot_of (get key pairs))

-- A run takes the place of the page so far if there is none or if its name is the canonical one.
abbrev pub chosen : (canonical : Text) → Run → Option Text → Option Text
chosen canonical r old =
    if not (is_some old) || same_text r.name canonical then some (page_name r.cfg r.name) else old

module _ (key canonical : Text) (r : Run) (pairs : Pairs) where
  add_page_here :
      page_at (add_page key canonical r pairs) key r.cfg
      ≡ chosen canonical r (page_at pairs key r.cfg)
  unfolding add_page
  add_page_here =
      elim (Bool-cases (not (is_some (page_at pairs key r.cfg)) || same_text r.name canonical)) [
        | inl e ↦
            rw
              (
                e,
                get-put key (put r.cfg (page_name r.cfg r.name) (slot_of (get key pairs))) pairs,
                get-put r.cfg (page_name r.cfg r.name) (slot_of (get key pairs)),
              )
              refl
        | inr e ↦ rw (e, get-put key (slot_of (get key pairs)) pairs) refl
      ]

  add_page_cfg :
      (cfg : Text)
      → same_text r.cfg cfg ≡ false
      → page_at (add_page key canonical r pairs) key cfg ≡ page_at pairs key cfg
  unfolding add_page
  add_page_cfg cfg h =
      elim (Bool-cases (not (is_some (page_at pairs key r.cfg)) || same_text r.name canonical)) [
        | inl e ↦
            rw
              (
                e,
                get-put key (put r.cfg (page_name r.cfg r.name) (slot_of (get key pairs))) pairs,
                get-put_other r.cfg cfg (page_name r.cfg r.name) (slot_of (get key pairs)) h,
              )
              refl
        | inr e ↦ rw (e, get-put key (slot_of (get key pairs)) pairs) refl
      ]

  add_page_key :
      (other cfg : Text)
      → same_text key other ≡ false
      → page_at (add_page key canonical r pairs) other cfg ≡ page_at pairs other cfg
  unfolding add_page
  add_page_key other cfg h =
      elim (Bool-cases (not (is_some (page_at pairs key r.cfg)) || same_text r.name canonical)) [
        | inl e ↦
            rw
              (
                e,
                get-put_other key other
                    (put r.cfg (page_name r.cfg r.name) (slot_of (get key pairs))) pairs h,
              )
              refl
        | inr e ↦ rw (e, get-put_other key other (slot_of (get key pairs)) pairs h) refl
      ]

  -- What a run does to the page of a pair and a configuration.
  abbrev pub after_run : Text → Text → Option Text → Option Text
  after_run k c old = if same_text key k && same_text r.cfg c then chosen canonical r old else old

  pub add_page_at :
      (k c : Text)
      → page_at (add_page key canonical r pairs) k c ≡ after_run k c (page_at pairs k c)
  add_page_at k c = elim (Bool-cases (same_text key k)) [
    | inl e ↦ elim (Bool-cases (same_text r.cfg c)) [
      | inl e' ↦
          rw (e, e')
            (subst
              (λ x.
                page_at (add_page key canonical r pairs) x c
                ≡ chosen canonical r (page_at pairs x c))
              (same_text→≡ key k e)
              (subst
                (λ y.
                  page_at (add_page key canonical r pairs) key y
                  ≡ chosen canonical r (page_at pairs key y))
                (same_text→≡ r.cfg c e') add_page_here))
      | inr e' ↦
          rw (e, e')
            (subst (λ x. page_at (add_page key canonical r pairs) x c ≡ page_at pairs x c)
              (same_text→≡ key k e) (add_page_cfg c e'))
    ]
    | inr e ↦ rw e (add_page_key k c e)
  ]

-- The page that a scan of the runs, for this pair and this configuration alone, ends with.
abbrev pub text_or : Outcome NavError Text → Text
text_or (raises e) = []
text_or (returns text) = text

abbrev pub key_of : Run → Text
key_of r = text_or (joined (codes "|") r.clients)

abbrev pub canonical_of : Run → Text
canonical_of r = text_or (joined (codes "__") r.clients)

abbrev pub page_of : Text → Text → Option Text → List Run → Option Text
page_of k c old [] = old
page_of k c old (r ∷ runs) =
    page_of k c
      (if not (is_skipped r) && (same_text (key_of r) k && same_text r.cfg c)
        then chosen (canonical_of r) r old
        else old)
      runs

joined-returns :
    (sep : Text) (clients : List Text)
    → 0 < length clients
    → Path (Outcome NavError Text) (joined sep clients) (returns (text_or (joined sep clients)))
unfolding joined
joined-returns sep [] h = absurd (omega (arith, h))
joined-returns sep (a ∷ []) h = refl
joined-returns sep (a ∷ b ∷ []) h = refl
joined-returns sep (a ∷ b ∷ c ∷ rest) h = refl

-- If every run has a client, the runs are added to the navigation so far. For each pair of
-- workloads and each configuration it then has the page it had, or else that of the first run of
-- both that is neither solo nor of more than two clients, unless some such run has the pair's
-- canonical name: then it has the page of the last such.
pub pair_map-page_of :
    (runs : List Run) (pairs : Pairs)
    → All (λ (r : Run). 0 < length r.clients) runs
    → (built : Pairs) × Path (Outcome NavError Pairs) (pair_map runs pairs) (returns built)
      × ((k c : Text) → page_at built k c ≡ page_of k c (page_at pairs k c) runs)
unfolding pair_map
pair_map-page_of [] pairs h = (pairs, refl, λ k c. refl)
pair_map-page_of (r ∷ runs) pairs h = elim (Bool-cases (is_skipped r)) [
  | inl e ↦
      let (built, e', at) = pair_map-page_of runs pairs h.1 in
      (built, rw (e, e') refl, λ k c. rw (e, at k c) refl)
  | inr e ↦
      let (built, e', at) =
        pair_map-page_of runs (add_page (key_of r) (canonical_of r) r pairs) h.1 in
      (
        built,
        rw
            (
              e,
              joined-returns (codes "|") r.clients h.0,
              joined-returns (codes "__") r.clients h.0,
              e',
            )
            refl,
        λ k c. rw (e, at k c, add_page_at (key_of r) (canonical_of r) r pairs k c) refl,
      )
]
