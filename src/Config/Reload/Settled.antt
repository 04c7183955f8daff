-- ===== src/Config/Reload/Settled.antt =====
-- One round of the reload picks up everything that it sees.
use dns_relay.Prelude.{
  ℕ, ◌≡◌, ◌≢◌, refl, sym, ap, ap₂, ◌∙◌, Bool, true, false, not, ◌&&◌, &&→both, ==→eq, Option, none,
  some, List, [], ◌∷◌, Outcome, ok, refuse, panic, out_of_fuel, ◌⊎◌, inl, inr, Bool-cases, arith,
}
use dns_relay.Prelude.Slices.{Bytes}
use dns_relay.Dns.Text.Affix.{eq_bytes, eq_bytes_self, eq_bytes→eq}
use dns_relay.Trie.Build.{build}
use dns_relay.Config.{Conf}
use dns_relay.Config.Reload.{
  FileTime, same_time, same_times, rule_file_mtimes, Seen, Watched, reloaded, reloaded_if,
  with_mtime, reload_round,
}

same_time_self : (t : Option ℕ) → same_time t t ≡ true
same_time_self none = refl
same_time_self (some t) = ground arith

same_times_self : (files : List FileTime) → same_times files files ≡ true
same_times_self [] = refl
same_times_self ((path, t) ∷ files) =
    rw (eq_bytes_self path, same_time_self t, same_times_self files) refl

same_time→eq : (t u : Option ℕ) → same_time t u ≡ true → t ≡ u
same_time→eq none none h = refl
same_time→eq none (some u) h = cc
same_time→eq (some t) none h = cc
same_time→eq (some t) (some u) h = ap some (==→eq t u h)

same_times→eq : (files others : List FileTime) → same_times files others ≡ true → files ≡ others
same_times→eq [] [] h = refl
same_times→eq [] (other ∷ others) h = cc
same_times→eq (file ∷ files) [] h = cc
same_times→eq ((path, t) ∷ files) ((path', t') ∷ others) h =
    let (front, same_rest) =
      &&→both (eq_bytes path path' && same_time t t') (same_times files others) h in
    let (same_path, same_t) = &&→both (eq_bytes path path') (same_time t t') front in
    ap₂ ◌∷◌ (ap₂ (λ p u. (p, u)) (eq_bytes→eq path path' same_path) (same_time→eq t t' same_t))
      (same_times→eq files others same_rest)

differs :
    {A : Type 0} (test : A → A → Bool)
    → ((x y : A) → test x y ≡ true → x ≡ y)
    → (x y : A) → x ≢ y
    → test x y ≡ false
differs test sound x y ne = elim (Bool-cases (test x y)) [
  | inl e ↦ absurd (ne (sound x y e))
  | inr e ↦ e
]

module _ (lower_wide : Bytes → Bytes) (Cache : Type 0) (empty : Cache) where
  abbrev Loop : Type 0
  Loop = Watched lower_wide Cache empty

  -- The state of a reload: the configuration with the rules of its lists, an empty cache, and the times
  -- that the round saw.
  abbrev pub reload_of : Seen → ℕ → Conf → Loop
  reload_of seen mtime conf = record {
    conf = conf;
    rule_trie = build lower_wide seen.read_to_string conf.drop_list conf.redirect_list;
    cache = empty;
    last_mtime = some mtime;
    list_mtimes = rule_file_mtimes seen.modified_after conf;
  }

  -- The state that a round comes to, for each of the things that it may see.
  pub record IsRound (s : Loop) (seen : Seen) (s' : Loop) : Type 0 where
    pub unreadable : seen.mtime ≡ none → s' ≡ s
    pub unchanged :
        (mtime : ℕ)
        → seen.mtime ≡ some mtime
        → s.last_mtime ≡ some mtime
        → rule_file_mtimes seen.modified_before s.conf ≡ s.list_mtimes
        → s' ≡ s
    pub new_file :
        (mtime : ℕ) (conf : Conf)
        → seen.mtime ≡ some mtime
        → s.last_mtime ≢ some mtime
        → seen.loaded ≡ ok conf
        → s' ≡ reload_of seen mtime conf
    pub refused :
        (mtime : ℕ)
        → seen.mtime ≡ some mtime
        → s.last_mtime ≢ some mtime
        → seen.loaded ≡ refuse
        → s' ≡ s
    pub new_lists :
        (mtime : ℕ)
        → seen.mtime ≡ some mtime
        → s.last_mtime ≡ some mtime
        → rule_file_mtimes seen.modified_before s.conf ≢ s.list_mtimes
        → s' ≡ reload_of seen mtime s.conf

  -- A round, by what it sees.
  round_by :
      (s : Loop) (seen : Seen) (mtime : ℕ) (same_file same_lists : Bool)
      → same_time (some mtime) s.last_mtime ≡ same_file
      → same_times (rule_file_mtimes seen.modified_before s.conf) s.list_mtimes ≡ same_lists
      → with_mtime lower_wide Cache empty s seen (some mtime)
        ≡ reloaded_if lower_wide Cache empty s seen mtime (not same_file) (not same_lists)
  round_by s seen mtime same_file same_lists file lists = rw (file, lists) refl

  reload_round-IsRound :
      (s : Loop) (seen : Seen) → IsRound s seen (reload_round lower_wide Cache empty s seen)
  unfolding reload_round
  reload_round-IsRound s seen =
      let at = λ (mtime : ℕ) (seen_at : seen.mtime ≡ some mtime).
        ap (with_mtime lower_wide Cache empty s seen) seen_at in
      let lists = rule_file_mtimes seen.modified_before s.conf in
      let another = λ (mtime : ℕ) (ne : s.last_mtime ≢ some mtime).
        differs same_time same_time→eq (some mtime) s.last_mtime (λ e. ne (sym e)) in
      let same = λ (mtime : ℕ) (e : s.last_mtime ≡ some mtime).
        ap (same_time (some mtime)) e ∙ same_time_self (some mtime) in
      record {
        unreadable = λ gone. ap (with_mtime lower_wide Cache empty s seen) gone;
        unchanged = λ mtime seen_at e f.
            at mtime seen_at
            ∙ round_by s seen mtime true true (same mtime e)
                (ap (λ l. same_times l s.list_mtimes) f ∙ same_times_self s.list_mtimes);
        new_file = λ mtime conf seen_at ne loaded.
            at mtime seen_at
            ∙ round_by s seen mtime false (same_times lists s.list_mtimes) (another mtime ne) refl
            ∙ ap (reloaded lower_wide Cache empty s seen mtime) loaded;
        refused = λ mtime seen_at ne loaded.
            at mtime seen_at
            ∙ round_by s seen mtime false (same_times lists s.list_mtimes) (another mtime ne) refl
            ∙ ap (reloaded lower_wide Cache empty s seen mtime) loaded;
        new_lists = λ mtime seen_at e ne.
            at mtime seen_at
            ∙ round_by s seen mtime true false (same mtime e)
                (differs same_times same_times→eq lists s.list_mtimes ne);
      }

  -- Nothing to reload.
  abbrev Idle : Loop → Seen → ℕ → Type 0
  Idle s seen mtime =
      (same_time (some mtime) s.last_mtime ≡ true)
      × (same_times (rule_file_mtimes seen.modified_before s.conf) s.list_mtimes ≡ true)

  -- What a round comes to: the same state, or one in which there is nothing to reload.
  abbrev Outcomes : Loop → Seen → ℕ → Loop → Type 0
  Outcomes s seen mtime s' = (s' ≡ s) ⊎ Idle s' seen mtime

  reloaded-Outcomes :
      (s : Loop) (seen : Seen) (mtime : ℕ) (o : Outcome Conf)
      → seen.modified_before ≡ seen.modified_after
      → Outcomes s seen mtime (reloaded lower_wide Cache empty s seen mtime o)
  reloaded-Outcomes s seen mtime (ok conf) quiet = inr (
    same_time_self (some mtime),
    ap
          (λ modified.
            same_times (rule_file_mtimes modified conf) (rule_file_mtimes seen.modified_after conf))
          quiet
        ∙ same_times_self (rule_file_mtimes seen.modified_after conf),
  )
  reloaded-Outcomes s seen mtime refuse quiet = inl refl
  reloaded-Outcomes s seen mtime panic quiet = inl refl
  reloaded-Outcomes s seen mtime out_of_fuel quiet = inl refl

  reloaded_if-Outcomes :
      (s : Loop) (seen : Seen) (mtime : ℕ) (config_changed lists_changed : Bool)
      → seen.modified_before ≡ seen.modified_after
      → Outcomes s seen mtime
          (reloaded_if lower_wide Cache empty s seen mtime config_changed lists_changed)
  reloaded_if-Outcomes s seen mtime true lists quiet =
      reloaded-Outcomes s seen mtime seen.loaded quiet
  reloaded_if-Outcomes s seen mtime false true quiet =
      reloaded-Outcomes s seen mtime (ok s.conf) quiet
  reloaded_if-Outcomes s seen mtime false false quiet = inl refl

  twice :
      (s : Loop) (seen : Seen)
      → seen.modified_before ≡ seen.modified_after
      → reload_round lower_wide Cache empty (reload_round lower_wide Cache empty s seen) seen
        ≡ reload_round lower_wide Cache empty s seen
  unfolding reload_round
  twice s seen quiet = on seen.mtime
    where
      on :
          (o : Option ℕ)
          → let s' = with_mtime lower_wide Cache empty s seen o in
            with_mtime lower_wide Cache empty s' seen o ≡ s'
      on none = refl
      on (some mtime) =
          elim (reloaded_if-Outcomes s seen mtime (not (same_time (some mtime) s.last_mtime))
            (not (same_times (rule_file_mtimes seen.modified_before s.conf) s.list_mtimes)) quiet) [
              | inl same ↦ ap (λ t. with_mtime lower_wide Cache empty t seen (some mtime)) same
              | inr (file, lists) ↦
                  round_by (with_mtime lower_wide Cache empty s seen (some mtime)) seen mtime true
                    true file lists
            ]

  -- A round of the reload changes nothing if the file of the configuration cannot be looked at, is new and
  -- refused, or is as before with the same times of the lists. If the file is new and accepted, or only the
  -- times of the lists have changed, the round leaves the new configuration, or the one in use, with
  -- the rules of its lists as they were read, an empty cache, and the times it saw. If the lists do not
  -- change during the round, a second one that sees the same files changes nothing.
  pub reload_round-Settled :
      (s : Watched lower_wide Cache empty) (seen : Seen)
      → IsRound s seen (reload_round lower_wide Cache empty s seen)
        × (seen.modified_before ≡ seen.modified_after
            → reload_round lower_wide Cache empty (reload_round lower_wide Cache empty s seen) seen
              ≡ reload_round lower_wide Cache empty s seen)
  reload_round-Settled s seen = (reload_round-IsRound s seen, twice s seen)
