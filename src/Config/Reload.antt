-- ===== src/Config/Reload.antt =====
-- The reload of the configuration, one round of the loop of watch_conf_and_reload of dns_relay/src/conf.rs.
-- Files are looked at through arguments: their times of modification before and after the reload, the
-- lists, and what load_conf gives. Paths are compared by their text. A lock is never poisoned.
pub mod Settled
use dns_relay.Prelude.{
  ℕ, Bool, true, false, not, ◌&&◌, Option, none, some, List, [], ◌∷◌, map, ltb, ◌==◌, if◌then◌else◌,
  Outcome, ok, refuse, panic, out_of_fuel,
}
use dns_relay.Prelude.Slices.{Bytes}
use dns_relay.Dns.Text.Affix.{eq_bytes}
use dns_relay.Trie.{DomainTrie}
use dns_relay.Trie.Build.{build, referenced_rule_files}
use dns_relay.Config.{Conf}

abbrev pub FileTime : Type 0
FileTime = Bytes × Option ℕ

abbrev pub same_time : Option ℕ → Option ℕ → Bool
same_time none none = true
same_time (some t) (some u) = t == u
same_time _ _ = false

abbrev pub same_times : List FileTime → List FileTime → Bool
same_times [] [] = true
same_times ((path, t) ∷ files) ((path', t') ∷ files') =
    eq_bytes path path' && same_time t t' && same_times files files'
same_times _ _ = false

-- `left.cmp(&right)` is not Greater.
abbrev pub not_after : Bytes → Bytes → Bool
not_after [] right = true
not_after (b ∷ left) [] = false
not_after (b ∷ left) (c ∷ right) = if ltb b c then true else b == c && not_after left right

abbrev pub sorted_in : FileTime → List FileTime → List FileTime
sorted_in file [] = file ∷ []
sorted_in file (other ∷ files) =
    let rest = sorted_in file files in
    if not_after file.0 other.0 then file ∷ other ∷ files else other ∷ rest

abbrev pub sort_by_path : List FileTime → List FileTime
sort_by_path [] = []
sort_by_path (file ∷ files) = sorted_in file (sort_by_path files)

unfoldable pub rule_file_mtimes : (Bytes → Option ℕ) → Conf → List FileTime
unfolding referenced_rule_files
rule_file_mtimes modified conf =
    sort_by_path (
      map (λ path. (path, modified path)) (referenced_rule_files conf.drop_list conf.redirect_list))

-- What a round of the loop sees of the files.
pub record Seen : Type 0 where
  pub mtime : Option ℕ
  pub modified_before : Bytes → Option ℕ
  pub loaded : Outcome Conf
  pub read_to_string : Bytes → Option Bytes
  pub modified_after : Bytes → Option ℕ

module _ (lower_wide : Bytes → Bytes) (Cache : Type 0) (empty : Cache) where
  -- What the loop keeps and shares. `list_mtimes` and `last_mtime` are its own.
  pub record Watched : Type 0 where
    pub conf : Conf
    pub rule_trie : DomainTrie
    pub cache : Cache
    pub last_mtime : Option ℕ
    pub list_mtimes : List FileTime

  abbrev pub reloaded : Watched → Seen → ℕ → Outcome Conf → Watched
  reloaded s seen mtime (ok new_conf) = record {
    conf = new_conf;
    rule_trie = build lower_wide seen.read_to_string new_conf.drop_list new_conf.redirect_list;
    cache = empty;
    last_mtime = some mtime;
    list_mtimes = rule_file_mtimes seen.modified_after new_conf;
  }
  reloaded s seen mtime _ = s

  abbrev pub reloaded_if : Watched → Seen → ℕ → Bool → Bool → Watched
  reloaded_if s seen mtime config_changed lists_changed =
      if not config_changed && not lists_changed
      then s
      else reloaded s seen mtime (if config_changed then seen.loaded else ok s.conf)

  abbrev pub with_mtime : Watched → Seen → Option ℕ → Watched
  with_mtime s seen none = s
  with_mtime s seen (some mtime) =
      reloaded_if s seen mtime (not (same_time (some mtime) s.last_mtime))
        (not (same_times (rule_file_mtimes seen.modified_before s.conf) s.list_mtimes))

  unfoldable pub reload_round : Watched → Seen → Watched
  unfolding build rule_file_mtimes eq_bytes
  reload_round s seen = with_mtime s seen seen.mtime
