-- ===== src/Admin/Rollback.antt =====
-- A configuration is applied as a whole or not at all.
use dns_relay.Prelude.{
  ◌≡◌, refl, Bool, true, false, Option, none, some, List, [], if◌then◌else◌, Outcome, ok, refuse,
  panic, out_of_fuel,
}
use dns_relay.Prelude.Slices.{Bytes}
use dns_relay.Admin.{
  ServiceStatus, ServiceCall, Files, Replies, Applied, unstaged, rollback, put_to_use, committed,
  renamed, with_backup, written, parsed, apply_config,
}

-- With success the new configuration is there and has passed its check; with an error, the old one.
abbrev pub Whole : Option Bytes → Bytes → Replies → Outcome (Unit {0}) → Option Bytes → Type 0
Whole old new r (ok _) live = (live ≡ some new) × (r.checks new ≡ true)
Whole old new r refuse live = live ≡ old
Whole old new r panic live = ⊥
Whole old new r out_of_fuel live = ⊥

-- No staged file is left.
abbrev pub IsWhole : Option Bytes → Bytes → Replies → Applied → Type 0
IsWhole old new r applied =
    Whole old new r applied.result applied.files.config × (applied.files.staged ≡ none)

either_way :
    {A : Type 0} (P : A → Type 0) (b : Bool) (x y : A)
    → (b ≡ true → P x)
    → (b ≡ false → P y)
    → P (if b then x else y)
either_way P true x y f g = f refl
either_way P false x y f g = g refl

module _ (new : Bytes) (r : Replies) (unstages : r.unstages ≡ true)
    (restores : r.restores ≡ true) where
  unstaged_with :
      (files : Files) (old : Option Bytes)
      → files.config ≡ old
      → IsWhole old new r (unstaged files r)
  unstaged_with files old before = rw unstages (before, refl)

  rollback-IsWhole :
      (files : Files) (old : Option Bytes) (prior : ServiceStatus) (calls : List ServiceCall)
      → files.staged ≡ none
      → (files.backup ≡ old → IsWhole old new r (rollback files old prior r calls))
        × (old ≡ none → IsWhole old new r (rollback files old prior r calls))
  unfolding rollback
  rollback-IsWhole files none prior calls empty =
      ((λ b. rw restores (refl, empty)), (λ b. rw restores (refl, empty)))
  rollback-IsWhole files (some live) prior calls empty = ((λ b. rw restores (b, empty)), (λ b. cc))

  renamed-IsWhole :
      (files : Files) (old : Option Bytes) (prior : ServiceStatus)
      (restarting has_http_health : Bool)
      → files.config ≡ some new
      → files.staged ≡ none
      → r.checks new ≡ true
      → ((prior : ServiceStatus) (calls : List ServiceCall)
          → IsWhole old new r (rollback files old prior r calls))
      → IsWhole old new r (renamed files old prior restarting has_http_health r)
  renamed-IsWhole files old prior restarting has_http_health there empty passes saved =
      either_way (IsWhole old new r) r.syncs _ _
        (λ _. on (put_to_use prior restarting has_http_health r)) (λ _. saved prior [])
    where
      on : (used : Bool × List ServiceCall) → IsWhole old new r (committed files old prior r used)
      on (true, calls) = ((there, passes), empty)
      on (false, calls) = saved prior calls

  with_backup-IsWhole :
      (files : Files) (old : Option Bytes) (prior : ServiceStatus)
      (restarting has_http_health : Bool)
      → files.config ≡ old
      → files.staged ≡ some new
      → r.checks new ≡ true
      → IsWhole old new r (with_backup files old prior restarting has_http_health r)
  with_backup-IsWhole files none prior restarting has_http_health before there passes =
      let moved = record files { config = files.staged; staged = none } in
      either_way (IsWhole none new r) r.renames _ _
        (λ _.
          renamed-IsWhole moved none prior restarting has_http_health there refl passes
            (λ p calls. (rollback-IsWhole moved none p calls refl).1 refl))
        (λ _. unstaged_with files none before)
  with_backup-IsWhole files (some live) prior restarting has_http_health before there passes =
      let moved = record files { config = files.staged; staged = none; backup = some live } in
      either_way (IsWhole (some live) new r) r.backs_up _ _
        (λ _.
          either_way (IsWhole (some live) new r) r.renames _ _
            (λ _.
              renamed-IsWhole moved (some live) prior restarting has_http_health there refl passes
                (λ p calls. (rollback-IsWhole moved (some live) p calls refl).0 refl))
            (λ _. unstaged_with (record files { backup = some live }) (some live) before))
        (λ _. unstaged_with (record files { backup = r.part_backup }) (some live) before)

  written-IsWhole :
      (files : Files) (restarting has_http_health : Bool) (status : Option ServiceStatus)
      → files.staged ≡ none
      → IsWhole files.config new r (written files new restarting has_http_health r status)
  written-IsWhole files restarting has_http_health none empty = (refl, empty)
  written-IsWhole files restarting has_http_health (some prior) empty =
      let staged = record files { staged = some new } in
      either_way (IsWhole files.config new r) r.writes_staged _ _
        (λ _.
          either_way (IsWhole files.config new r) (r.checks new) _ _
            (λ passes.
              with_backup-IsWhole staged files.config prior restarting has_http_health refl refl
                passes)
            (λ _. unstaged_with staged files.config refl))
        (λ _. unstaged_with (record files { staged = r.part_staged }) files.config refl)

  -- A configuration is applied as a whole or not at all: with success it is the live one and its check
  -- has passed; with an error at any step, and whatever the service does, the live one is that of before,
  -- or none if there was none. In both cases no staged file is left. The removal of a
  -- staged file and the first step of a rollback succeed, and no staged file was there before.
  pub apply_config-IsWhole :
      (files : Files) (restarting : Bool)
      → files.staged ≡ none
      → IsWhole files.config new r (apply_config files new restarting r)
  unfolding apply_config
  apply_config-IsWhole files restarting empty = on (r.http_health new)
    where
      on : (o : Option Bool) → IsWhole files.config new r (parsed files new restarting r o)
      on none = (refl, empty)
      on (some has_http_health) = written-IsWhole files restarting has_http_health r.status empty
