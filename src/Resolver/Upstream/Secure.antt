-- ===== src/Resolver/Upstream/Secure.antt =====
-- Where the queries of a secure picker go.
use dns_relay.Prelude.{◌≡◌, refl, Bool, true, not, ◌||◌, ◌⊎◌, inl, inr, Bool-cases, ap, sym, ◌∙◌}
use dns_relay.Prelude.Slices.{Bytes}
use dns_relay.Cache.Lru.{Has}
use dns_relay.Resolver.Picker.{
  Resolver, ResolverPicker, is_https, is_quic, is_secure_resolver, candidates,
}
use dns_relay.Resolver.Picker.Sorting.{Sort, SortLaws}
use dns_relay.Resolver.Picker.Choice.{candidates-IsChoice}
use dns_relay.Resolver.Upstream.{over_https, over_quic, route_of}

secure-route :
    (resolver : Bytes) (has_dispatcher : Bool)
    → is_secure_resolver resolver ≡ true
    → (route_of resolver has_dispatcher ≡ over_https)
      ⊎ (route_of resolver has_dispatcher ≡ over_quic)
unfolding route_of is_secure_resolver
secure-route resolver has_dispatcher secure = elim (Bool-cases (is_https resolver)) [
  | inl e ↦ inl (rw e refl)
  | inr e ↦ let over : is_quic resolver ≡ true = rw e at secure in inr (rw (e, over) refl)
]

-- Each candidate of a picker with secure_only for a query, whatever its list of healthy resolvers holds, is
-- asked over HTTPS or over QUIC, with a dispatcher or without.
pub candidates-secure :
    (sorting : Sort Resolver) (laws : SortLaws sorting) (picker : ResolverPicker)
    (prefer_doh has_dispatcher : Bool) (x : Resolver)
    → picker.secure_only ≡ true
    → Has x (candidates sorting picker prefer_doh)
    → (route_of x.0 has_dispatcher ≡ over_https) ⊎ (route_of x.0 has_dispatcher ≡ over_quic)
candidates-secure sorting laws picker prefer_doh has_dispatcher x only m =
    let choice = candidates-IsChoice sorting laws picker prefer_doh in
    let allowed : (not picker.secure_only || is_secure_resolver x.0) ≡ true = choice.allowed x m in
    secure-route x.0 has_dispatcher (ap (λ b. not b || is_secure_resolver x.0) (sym only) ∙ allowed)
