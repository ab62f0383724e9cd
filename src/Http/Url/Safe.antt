-- ===== src/Http/Url/Safe.antt =====
-- Every URL: when `parse` returns, and what it leaves of a URL that it refuses.
use nicenet.Common.{
  ℕ, ◌≡◌, ◌≢◌, refl, sym, subst, ap, ◌∙◌, arith, Bool, true, false, Option, none, some, [], ◌∷◌,
  All, Bytes, Bool-cases, inl, inr,
}
use mathlib.Core.Option.{some-injective, none-ne-some}
use nicenet.Http.Url.Types.{
  Url, new_url, State, in_hostname, ipv6_hostname, Pass, Next, next, aborts, new_pass,
}
use nicenet.Http.Url.Cases.{
  on_scheme, on_slash_1, on_slash_2, on_user_or_host, on_password, on_hostname, on_port_or_password,
  on_port, on_path, on_query, on_fragment,
}
use nicenet.Http.Url.Parse.{step_in, scan, keep_host, parse}
use nicenet.Http.Url.Refused.{scan_stops}

abbrev IsSafe : Next → Type 0
IsSafe (next q) = q.state ≢ ipv6_hostname
IsSafe aborts = ⊥

step_in-IsSafe :
    (st : State) (c : ℕ) (p : Pass)
    → p.state ≡ st
    → st ≢ ipv6_hostname
    → c ≢ b'['
    → IsSafe (step_in st c p)
unfolding step_in on_scheme on_slash_1 on_slash_2 on_user_or_host on_password on_hostname
    on_port_or_password on_port on_path on_query on_fragment
step_in-IsSafe ipv6_hostname c p e h n = absurd (h refl)
step_in-IsSafe in_hostname c p e h n = ground arith
step_in-IsSafe _ c p e h n = ground arith

-- `parse_` goes on with the pass behind a byte.
scan-step :
    (p : Pass) (c : ℕ) (cs : Bytes) (a : Next)
    → p.valid ≡ true
    → step_in p.state c p ≡ a
    → scan p (c ∷ cs) ≡ elim a [ next q ↦ scan q cs | aborts ↦ none ]
unfolding scan
scan-step p c cs (next q) v e = rw (e, scan) (rw v)
scan-step p c cs aborts v e = rw (e, scan) (rw v)

abbrev Returns : Pass → Bytes → Type 0
Returns p text = (q : Pass) × (scan p text ≡ some q)

after-Returns :
    (p : Pass) (c : ℕ) (cs : Bytes) (a : Next)
    → p.valid ≡ true
    → step_in p.state c p ≡ a
    → IsSafe a
    → ((q : Pass) → q.state ≢ ipv6_hostname → Returns q cs)
    → Returns p (c ∷ cs)
after-Returns p c cs (next q) v e h ih =
    let (r, f) = ih q h in (r, scan-step p c cs (next q) v e ∙ f)
after-Returns p c cs aborts v e h ih = absurd h

abbrev pub NoBracket : ℕ → Type 0
NoBracket c = c ≢ b'['

scan-Returns :
    (text : Bytes) (p : Pass) → p.state ≢ ipv6_hostname → All NoBracket text → Returns p text
unfolding scan
scan-Returns [] p h n = (p, refl)
scan-Returns (c ∷ cs) p h n = elim (Bool-cases p.valid) [
  | inl v ↦
      after-Returns p c cs (step_in p.state c p) v refl (step_in-IsSafe p.state c p refl h n.0)
        (λ (q : Pass) (k : q.state ≢ ipv6_hostname). scan-Returns cs q k n.1)
  | inr v ↦ (p, rw v)
]

-- On a text with no `[`, `parse` returns: it does not call `abort()`.
pub parse_returns : (text : Bytes) → All NoBracket text → (p : Pass) × (parse text ≡ some p)
unfolding parse
parse_returns text n =
    let (q, e) = scan-Returns text new_pass (λ e. cc) n in (keep_host q, rw (e, parse))

-- A pass that has refused its text has dropped what it had of the URL.
abbrev IsLeft : Pass → Type 0
IsLeft p = p.valid ≡ false → p.url ≡ new_url

abbrev LeavesNone : Next → Type 0
LeavesNone (next q) = IsLeft q
LeavesNone aborts = Unit

step_in-LeavesNone : (st : State) (c : ℕ) (p : Pass) → p.valid ≡ true → LeavesNone (step_in st c p)
unfolding step_in on_scheme on_slash_1 on_slash_2 on_user_or_host on_password on_hostname
    on_port_or_password on_port on_path on_query on_fragment
step_in-LeavesNone ipv6_hostname c p v = tt
step_in-LeavesNone _ c p v = ground arith

abbrev EndsLeft : Option Pass → Type 0
EndsLeft none = Unit
EndsLeft (some p) = IsLeft p

after-EndsLeft :
    (a : Next) (cs : Bytes)
    → ((q : Pass) → IsLeft q → EndsLeft (scan q cs))
    → LeavesNone a
    → EndsLeft (elim a [ next q ↦ scan q cs | aborts ↦ none ])
after-EndsLeft (next q) cs ih k = ih q k
after-EndsLeft aborts cs ih k = tt

scan-EndsLeft : (text : Bytes) (p : Pass) → IsLeft p → EndsLeft (scan p text)
scan-EndsLeft [] p h = unfold scan in h
scan-EndsLeft (c ∷ cs) p h = elim (Bool-cases p.valid) [
  | inl v ↦ subst EndsLeft (sym (scan-step p c cs (step_in p.state c p) v refl)) (
      after-EndsLeft (step_in p.state c p) cs (scan-EndsLeft cs) (step_in-LeavesNone p.state c p v))
  | inr v ↦ subst EndsLeft (sym (scan_stops (c ∷ cs) p v)) h
]

-- Nothing but the host, and that is `usernameOrHostname`.
abbrev IsBare : Pass → Type 0
IsBare p = p.valid ≡ false → p.url ≡ record new_url { hostname = p.user_or_host }

keep_host-IsBare :
    (st : State) (u : Url) (w port : Bytes) (v : Bool)
    → let p : Pass = record {
      state = st;
      url = u;
      user_or_host = w;
      port_or_pass = port;
      valid = v;
    } in
      IsLeft p → IsBare (keep_host p)
unfolding keep_host
keep_host-IsBare st u [] port v h = h
keep_host-IsBare st u (c ∷ cs) port v h =
    λ (e : v ≡ false). ap (λ (x : Url). record x { hostname = c ∷ cs }) (h e)

parsed-IsBare :
    (o : Option Pass) (p : Pass)
    → EndsLeft o
    → (elim o [ none ↦ none | some q ↦ some (keep_host q) ]) ≡ some p
    → IsBare p
parsed-IsBare none p h e = absurd (none-ne-some p e)
parsed-IsBare (some q) p h e =
    subst IsBare (some-injective (keep_host q) p e)
      (keep_host-IsBare q.state q.url q.user_or_host q.port_or_pass q.valid h)

-- Every URL that `parse` refuses leaves an empty object but for the host, which is what the parser
-- held for a user or a host at the end.
pub parse_refused :
    (text : Bytes) (p : Pass)
    → parse text ≡ some p
    → p.valid ≡ false
    → p.url ≡ record new_url { hostname = p.user_or_host }
unfolding parse
parse_refused text p e =
    parsed-IsBare (scan new_pass text) p (scan-EndsLeft text new_pass (λ e. cc)) e
