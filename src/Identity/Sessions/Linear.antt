-- ===== src/Identity/Sessions/Linear.antt =====
-- Every family of refresh tokens has at most one that is not revoked.
use foodo.Prelude.{
  ℕ, ◌+◌, ◌≤◌, ◌<◌, ◌≡◌, refl, sym, ap, ◌∙◌, ◌⊎◌, inl, inr, String, true, ◌==◌, Option, none, some,
  List, [], ◌∷◌, ok, err, Bool-cases, Option-cases, is_some, if◌then◌else◌, arith,
}
use mathlib.Core.Path.{subst}
use foodo.Identity.Model.{RefreshToken, UserSession, Auth, AuthError}
use foodo.Identity.Sessions.{
  with_tokens, first_token, find_token, get_session, get_token, update_token, revoked,
  revoke_family, is_usable, add_token, replaced, issue_login_session, rotate_refresh_token,
  revoke_refresh_token, revoke_token_of, end_session, end_sessions, revoke_session,
  revoke_all_sessions_for_user, all_of_token, one_or_none, deactivate_found, active_of_user,
}
use foodo.Identity.Sessions.Outcome.{outcome, refused, replayed, granted, new_token}
use foodo.Identity.Sessions.Replay.{live}

-- The families that are in use have ids that were drawn.
abbrev pub AllDrawn : ℕ → List RefreshToken → Type 0
AllDrawn n [] = Unit
AllDrawn n (x ∷ xs) = (x.family_id < n) × AllDrawn n xs

pub record IsLinear (s : Auth) : Type 0 where
  pub drawn : AllDrawn s.next_id s.tokens
  pub alone : (f : ℕ) → live f s.tokens ≤ 1

-- A change of a row that keeps its family and never takes a revocation back.
record IsRevoking (g : RefreshToken → RefreshToken) : Type 0 where
  family : (x : RefreshToken) → (g x).family_id ≡ x.family_id
  stays : (x : RefreshToken) → is_some x.revoked_at ≡ true → is_some (g x).revoked_at ≡ true

revoked-IsRevoking : (now : ℕ) → IsRevoking (revoked now)
unfolding revoked
revoked-IsRevoking now = record {
  family = λ x. refl;
  stays = λ x h. elim (Option-cases x.revoked_at) [ inl e ↦ rw e refl | inr (t, e) ↦ rw e refl ];
}

replaced-IsRevoking : (hash : String → String) (now id : ℕ) → IsRevoking (replaced hash now id)
replaced-IsRevoking hash now id = record { family = λ x. refl; stays = λ x h. refl }

live-update_token :
    (f i : ℕ) (g : RefreshToken → RefreshToken) (xs : List RefreshToken)
    → IsRevoking g
    → live f (update_token i g xs) ≤ live f xs
unfolding update_token
live-update_token f i g [] r = omega arith
live-update_token f i g (x ∷ xs) r =
    ground (arith, r.family x, r.stays x, live-update_token f i g xs r)

AllDrawn-update_token :
    (n i : ℕ) (g : RefreshToken → RefreshToken) (xs : List RefreshToken)
    → IsRevoking g
    → AllDrawn n xs
    → AllDrawn n (update_token i g xs)
unfolding update_token
AllDrawn-update_token n i g [] r h = tt
AllDrawn-update_token n i g (x ∷ xs) r h =
    ground (arith, r.family x, AllDrawn-update_token n i g xs r h.1)

AllDrawn-suc : (n : ℕ) (xs : List RefreshToken) → AllDrawn n xs → AllDrawn (n + 1) xs
AllDrawn-suc n [] h = tt
AllDrawn-suc n (x ∷ xs) h = (omega arith, AllDrawn-suc n xs h.1)

live-fresh : (n : ℕ) (xs : List RefreshToken) → AllDrawn n xs → live n xs ≡ 0
live-fresh n [] h = refl
live-fresh n (x ∷ xs) h = ground (arith, live-fresh n xs h.1)

live-revoke_family-le :
    (f fam now : ℕ) (xs : List RefreshToken) → live f (revoke_family fam now xs) ≤ live f xs
unfolding revoke_family revoked
live-revoke_family-le f fam now [] = omega arith
live-revoke_family-le f fam now (x ∷ xs) = ground (arith, live-revoke_family-le f fam now xs)

AllDrawn-revoke_family :
    (n fam now : ℕ) (xs : List RefreshToken) → AllDrawn n xs → AllDrawn n (revoke_family fam now xs)
unfolding revoke_family revoked
AllDrawn-revoke_family n fam now [] h = tt
AllDrawn-revoke_family n fam now (x ∷ xs) h =
    ground (arith, AllDrawn-revoke_family n fam now xs h.1)

-- The token that is found is not live any more once it is replaced.
live-replaced :
    (hash : String → String) (h : String) (now id : ℕ) (xs : List RefreshToken) (old : RefreshToken)
    → find_token h xs ≡ some old
    → old.revoked_at ≡ none
    → live old.family_id (update_token old.id (replaced hash now id) xs) + 1 ≤ live old.family_id xs
unfolding find_token update_token
live-replaced hash h now id [] old f r = absurd (cc)
live-replaced hash h now id (x ∷ xs) old f r = ground (
  arith,
  live-replaced hash h now id xs old,
  live-update_token old.family_id old.id (replaced hash now id) xs
      (replaced-IsRevoking hash now id),
)

live-update_token_cons :
    (f i : ℕ) (g : RefreshToken → RefreshToken) (n : RefreshToken) (xs : List RefreshToken)
    → IsRevoking g
    → live f (update_token i g (n ∷ xs))
      ≤ (if n.family_id == f then 1 else 0) + live f (update_token i g xs)
unfolding update_token
live-update_token_cons f i g n xs r = ground (arith, r.family n)

-- The new token takes the place of the old one.
live-rotated :
    (hash : String → String) (raw : String) (now id fam : ℕ) (xs : List RefreshToken)
    (old n : RefreshToken)
    → n.family_id ≡ old.family_id
    → find_token (hash raw) xs ≡ some old
    → old.revoked_at ≡ none
    → live fam xs ≤ 1
    → live fam (update_token old.id (replaced hash now id) (n ∷ xs)) ≤ 1
live-rotated hash raw now id fam xs old n same f r one =
    let g = replaced hash now id in
    let k = replaced-IsRevoking hash now id in
    let cons = live-update_token_cons fam old.id g n xs k in
    elim (Bool-cases (n.family_id == fam)) [
      | inl here ↦
          let is_fam : old.family_id ≡ fam = ground arith in
          let less = live-replaced hash (hash raw) now id xs old f r in
          let less' = subst (λ x. live x (update_token old.id g xs) + 1 ≤ live x xs) is_fam less in
          let cons' = rw here at cons in omega arith
      | inr other ↦
          let le = live-update_token fam old.id g xs k in
          let cons' = rw other at cons in omega arith
    ]

find_token-AllDrawn :
    (n : ℕ) (h : String) (xs : List RefreshToken) (x : RefreshToken)
    → AllDrawn n xs
    → find_token h xs ≡ some x
    → x.family_id < n
unfolding find_token
find_token-AllDrawn n h [] x d f = absurd (cc)
find_token-AllDrawn n h (y ∷ ys) x d f = ground (arith, find_token-AllDrawn n h ys x d.1)

is_usable-revoked_at : (now : ℕ) (x : RefreshToken) → is_usable now x ≡ true → x.revoked_at ≡ none
unfolding is_usable
is_usable-revoked_at now x h = elim (Option-cases x.revoked_at) [
  | inl e ↦ e
  | inr (t, e) ↦ absurd (ground arith)
]

-- Revoking the rows of an id keeps the invariant.
revoke-IsLinear :
    (i now : ℕ) (s t : Auth)
    → IsLinear s
    → t.next_id ≡ s.next_id
    → t.tokens ≡ update_token i (revoked now) s.tokens
    → IsLinear t
revoke-IsLinear i now s t l n e = record {
  drawn =
      rw (n, e)
        (AllDrawn-update_token s.next_id i (revoked now) s.tokens (revoked-IsRevoking now) l.drawn);
  alone = λ f.
      let le = live-update_token f i (revoked now) s.tokens (revoked-IsRevoking now) in
      let one = l.alone f in rw e (omega arith);
}

revoke_token_of-IsLinear :
    (o : Option ℕ) (now : ℕ) (s : Auth) → IsLinear s → IsLinear (revoke_token_of o now s)
unfolding revoke_token_of
revoke_token_of-IsLinear none now s l = l
revoke_token_of-IsLinear (some i) now s l = revoke-IsLinear i now s _ l refl refl

same-IsLinear : (s t : Auth) → IsLinear s → t.next_id ≡ s.next_id → t.tokens ≡ s.tokens → IsLinear t
same-IsLinear s t l n e = record { drawn = rw (n, e) l.drawn; alone = λ f. rw e (l.alone f) }

end_session-IsLinear :
    (now : ℕ) (x : UserSession) (s : Auth) → IsLinear s → IsLinear (end_session now x s)
unfolding end_session
end_session-IsLinear now x s l =
    revoke_token_of-IsLinear x.refresh_token_id now _ (same-IsLinear s _ l refl refl)

end_sessions-IsLinear :
    (now : ℕ) (xs : List UserSession) (s : Auth) → IsLinear s → IsLinear (end_sessions now xs s)
unfolding end_sessions
end_sessions-IsLinear now [] s l = l
end_sessions-IsLinear now (x ∷ xs) s l =
    end_sessions-IsLinear now xs (end_session now x s) (end_session-IsLinear now x s l)

revoke_session-IsLinear : (i now : ℕ) (s : Auth) → IsLinear s → IsLinear (revoke_session i now s)
unfolding revoke_session
revoke_session-IsLinear i now s l = elim (Option-cases (get_session i s.sessions)) [
  | inl e ↦ rw (revoke_session, e) l
  | inr (x, e) ↦ rw (revoke_session, e) (end_session-IsLinear now x s l)
]

deactivate_found-keeps :
    (o : Option UserSession) (s : Auth)
    → ((deactivate_found o s).next_id ≡ s.next_id) × ((deactivate_found o s).tokens ≡ s.tokens)
unfolding deactivate_found
deactivate_found-keeps none s = (refl, refl)
deactivate_found-keeps (some x) s = (refl, refl)

one_or_none-cases :
    {A : Type 0} (xs : List A)
    → ((o : Option A) × (one_or_none xs ≡ ok o)) ⊎ ((e : AuthError) × (one_or_none xs ≡ err e))
one_or_none-cases [] = inl (none, refl)
one_or_none-cases (x ∷ []) = inl (some x, refl)
one_or_none-cases (x ∷ y ∷ xs) = inr (_, refl)

revoke_refresh_token-IsLinear :
    (i now : ℕ) (s : Auth) → IsLinear s → IsLinear (revoke_refresh_token i now s).1
unfolding revoke_refresh_token
revoke_refresh_token-IsLinear i now s l = elim (Option-cases (get_token i s.tokens)) [
  | inl e ↦ rw e l
  | inr (x, e) ↦ elim (one_or_none-cases (all_of_token i s.sessions)) [
    | inl (o, k) ↦
        let u : Auth = with_tokens (update_token i (revoked now)) s in
        let keeps = deactivate_found-keeps o u in
        rw (e, k)
          (same-IsLinear u (deactivate_found o u) (revoke-IsLinear i now s u l refl refl) keeps.0
            keeps.1)
    | inr (y, k) ↦ rw (e, k) l
  ]
]

live-new :
    (f n : ℕ) (x : RefreshToken) (xs : List RefreshToken)
    → x.family_id ≡ n
    → live n xs ≡ 0
    → live f xs ≤ 1
    → live f (x ∷ xs) ≤ 1
live-new f n x xs e none_yet one = elim (Bool-cases (n == f)) [
  | inl here ↦
      let same : n ≡ f = ground arith in
      let zero_f : live f xs ≡ 0 = ap (λ k. live k xs) (sym same) ∙ none_yet in ground arith
  | inr other ↦ ground arith
]

module _ (hash : String → String) where
  rotate-IsLinear :
      (raw : String) (d ip : Option String) (ttl : ℕ) (token : String) (now : ℕ) (s : Auth)
      → IsLinear s
      → IsLinear (rotate_refresh_token hash raw d ip ttl token now s).1
  rotate-IsLinear raw d ip ttl token now s l = elim (outcome hash raw d ip ttl token now s) [
    | refused e ne q ↦ rw q l
    | replayed old j f e q ↦ rw q (record {
      drawn = AllDrawn-revoke_family s.next_id old.family_id now s.tokens l.drawn;
      alone = λ fam.
          let le = live-revoke_family-le fam old.family_id now s.tokens in
          let one = l.alone fam in omega arith;
    })
    | granted old sess f usable e free q ↦
        let xs = s.tokens in
        let g = replaced hash now s.next_id in
        let r = replaced-IsRevoking hash now s.next_id in
        let n = new_token hash raw d ip ttl token now s old in
        rw q (record {
          drawn = AllDrawn-update_token (s.next_id + 1) old.id g (n ∷ xs) r (
            (let below = find_token-AllDrawn s.next_id (hash raw) xs old l.drawn f in omega arith),
            AllDrawn-suc s.next_id xs l.drawn,
          );
          alone = λ fam.
              live-rotated hash raw now s.next_id fam xs old n refl f
                (is_usable-revoked_at now old usable) (l.alone fam);
        })
  ]

  issue-IsLinear :
      (user : ℕ) (d ip : Option String) (ttl : ℕ) (token : String) (now : ℕ) (s : Auth)
      → IsLinear s
      → IsLinear (issue_login_session hash user d ip ttl token now s).1
  unfolding issue_login_session add_token
  issue-IsLinear user d ip ttl token now s l =
      elim (Bool-cases (is_some (find_token (hash token) s.tokens))) [
        | inl taken ↦ rw taken l
        | inr free ↦ rw free (record {
          drawn = (omega arith, AllDrawn-suc s.next_id s.tokens l.drawn);
          alone = λ f.
              let fresh = live-fresh s.next_id s.tokens l.drawn in
              let one = l.alone f in
              live-new f s.next_id (first_token hash user d ip ttl token now s.next_id) s.tokens
                refl fresh one;
        })
      ]

-- The requests to the session service.
pub data AuthRequest : Type 0 where
  issue : ℕ → Option String → Option String → ℕ → String → ℕ → AuthRequest
  rotate : String → Option String → Option String → ℕ → String → ℕ → AuthRequest
  revoke_token revoke_one revoke_all : ℕ → ℕ → AuthRequest

module _ (hash : String → String) where
  unfoldable pub perform : AuthRequest → Auth → Auth
  perform (issue user d ip ttl token now) s = (issue_login_session hash user d ip ttl token now s).1
  perform (rotate raw d ip ttl token now) s = (rotate_refresh_token hash raw d ip ttl token now s).1
  perform (revoke_token i now) s = (revoke_refresh_token i now s).1
  perform (revoke_one i now) s = revoke_session i now s
  perform (revoke_all u now) s = revoke_all_sessions_for_user u now s

  unfoldable pub run : List AuthRequest → Auth → Auth
  unfolding perform
  run [] s = s
  run (q ∷ qs) s = run qs (perform q s)

  perform-IsLinear : (q : AuthRequest) (s : Auth) → IsLinear s → IsLinear (perform q s)
  unfolding perform revoke_all_sessions_for_user
  perform-IsLinear (issue user d ip ttl token now) s l =
      issue-IsLinear hash user d ip ttl token now s l
  perform-IsLinear (rotate raw d ip ttl token now) s l =
      rotate-IsLinear hash raw d ip ttl token now s l
  perform-IsLinear (revoke_token i now) s l = revoke_refresh_token-IsLinear i now s l
  perform-IsLinear (revoke_one i now) s l = revoke_session-IsLinear i now s l
  perform-IsLinear (revoke_all u now) s l =
      end_sessions-IsLinear now (active_of_user u s.sessions) s l

  -- Whatever the requests to the session service and whether they succeed or not, each family of
  -- refresh tokens has at most one token that is not revoked.
  pub run-IsLinear : (qs : List AuthRequest) (s : Auth) → IsLinear s → IsLinear (run qs s)
  unfolding run
  run-IsLinear [] s l = l
  run-IsLinear (q ∷ qs) s l = run-IsLinear qs (perform q s) (perform-IsLinear q s l)
