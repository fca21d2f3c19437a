-- ===== src/Client/Inflight/Claims/Grants.antt =====
-- client/inflight/inflight.go: a claim set and its account through a join and an owe.
use gridwell.Base.{
  ℕ, zero, suc, ◌<◌, ◌≡◌, refl, ap, sym, subst, ◌∙◌, true, false, List, [], ◌∷◌, ◌++◌, Option, some,
  Bytes, bytes_eq, bytes-Eq, bytes_eq_refl, lookup, insert, lookup-insert, length, length-append,
  arith,
}
use mathlib.Core.Bool.{false≢true}
use gridwell.Client.Inflight.Claims.{
  Claim, ClaimSet, new_claim, claim_at, Joined, join, join_held, owe, owe_held, owe_claim,
}
use gridwell.Client.Inflight.Claims.Holders.{
  length-write_at, claim_at-write_at_self, claim_at-write_at_ne, claim_at-append, join-IsSound,
  owe-IsSound,
}
use gridwell.Client.Inflight.Claims.Account.{
  joined, marked, put_fetch, Fetch, free, fetching, Account, Holds, Agrees, Holds-heap, by_key,
}

claim_at-append_old :
    (heap : List Claim) (x : Claim) (c : ℕ)
    → c < length heap
    → claim_at (heap ++ x ∷ []) c ≡ claim_at heap c
claim_at-append_old [] x c h = absurd (omega arith)
claim_at-append_old (y ∷ heap) x zero h = refl
claim_at-append_old (y ∷ heap) x (suc c) h = claim_at-append_old heap x c (omega arith)

pub join_at :
    (s : ClaimSet) (key : Bytes) {o : Option ℕ}
    → lookup key s.held ≡ o
    → join s key ≡ join_held s key o
unfolding join
join_at s key e = ap (join_held s key) e

owe_at :
    (s : ClaimSet) (key : Bytes) {o : Option ℕ} → lookup key s.held ≡ o → owe s key ≡ owe_held s o
unfolding owe
owe_at s key e = ap (owe_held s) e

pub join_held-Agrees :
    (s : ClaimSet) (a : Account) (key : Bytes) (f : Fetch)
    → Agrees s a
    → a.fetch key ≡ f
    → Holds s.heap (lookup key s.held) f
    → Agrees (join s key).claims (joined a key f)
join_held-Agrees s a key (fetching c b) g e (o, h) =
    subst (λ (t : ClaimSet). Agrees t a) (sym (ap Joined.claims (join_at s key o))) g
join_held-Agrees s a key free g e o = record {
  sound = join-IsSound s key g.sound;
  given =
      ap (λ (j : Joined). length j.claims.heap) (join_at s key o)
      ∙ length-append s.heap (new_claim ∷ [])
      ∙ omega (arith, g.given);
  each = λ k.
      subst
        (λ (j : Joined). Holds j.claims.heap (lookup k j.claims.held) ((joined a key free).fetch k))
        (sym (join_at s key o))
        (by_key key k (s.heap ++ new_claim ∷ []) (insert key (length s.heap) s.held) _ a.fetch
          (λ q.
            subst
              (λ (c : ℕ).
                Holds (s.heap ++ new_claim ∷ []) (lookup k (insert key (length s.heap) s.held))
                  (fetching c false))
              g.given
              (
                lookup-insert key k (length s.heap) s.held ∙ rw (q, bytes_eq_refl k) refl,
                ap Claim.owed (claim_at-append s.heap new_claim),
              ))
          (λ q.
            subst (λ (u : Option ℕ). Holds (s.heap ++ new_claim ∷ []) u (a.fetch k))
              (sym (lookup-insert key k (length s.heap) s.held ∙ rw q refl))
              (Holds-heap s.heap (s.heap ++ new_claim ∷ []) _ (a.fetch k)
                (λ c l.
                  ap Claim.owed (claim_at-append_old s.heap new_claim c (g.sound.placed k c l)))
                (g.each k))));
}

pub owe_held-Agrees :
    (s : ClaimSet) (a : Account) (key : Bytes) (f : Fetch)
    → Agrees s a
    → Holds s.heap (lookup key s.held) f
    → Agrees (owe s key) (record a { fetch = put_fetch a.fetch key (marked f) })
owe_held-Agrees s a key free g o =
    subst (λ (t : ClaimSet). Agrees t (record a { fetch = put_fetch a.fetch key free }))
      (sym (owe_at s key o))
      (record {
        sound = g.sound;
        given = g.given;
        each = λ k.
            by_key key k s.heap s.held free a.fetch (λ q. ap (λ i. lookup i s.held) (sym q) ∙ o)
              (λ q. g.each k);
      })
owe_held-Agrees s a key (fetching c b) g (o, h) = record {
  sound = owe-IsSound s key g.sound;
  given =
      ap (λ (t : ClaimSet). length t.heap) (owe_at s key o) ∙ length-write_at s.heap c _ ∙ g.given;
  each = λ k.
      subst
        (λ (t : ClaimSet).
          Holds t.heap (lookup k t.held) (put_fetch a.fetch key (fetching c true) k))
        (sym (owe_at s key o))
        (by_key key k (owe_claim s.heap c) s.held (fetching c true) a.fetch
          (λ q. (
            ap (λ i. lookup i s.held) (sym q) ∙ o,
            ap Claim.owed (claim_at-write_at_self s.heap c _ (g.sound.placed key c o)),
          ))
          (λ q.
            Holds-heap s.heap (owe_claim s.heap c) _ (a.fetch k)
              (λ d l. ap Claim.owed (
                claim_at-write_at_ne s.heap c d _ (λ u. false≢true (
                  sym q
                  ∙ ap (bytes_eq key) (sym (g.sound.apart key k c o (l ∙ ap some (sym u))))
                  ∙ bytes_eq_refl key))))
              (g.each k)));
}
