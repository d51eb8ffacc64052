-- ===== src/Alert/Sender/Retries.antt =====
-- How often `Send` of internal/alert/sender.go posts and waits, and what its result says of the posts.
use certel.Prelude.{
  ℕ, zero, suc, ◌-◌, ◌*◌, ◌%◌, ◌^◌, ◌≤◌, ◌≡◌, ◌≢◌, refl, ap, subst, Option-cases, arith, String,
  true, false, Option, none, some, List, [], ◌∷◌, ◌++◌, All, length, Bool-cases, inl, inr, ◌⊎◌,
}
use certel.Prelude.Int.{ℤ}
use certel.Clock.{Duration, second}
use certel.Alert.Types.{Bytes}
use certel.Alert.Sender.{
  Reply, SendError, Client, Sent, accepted, attempts_of, send_loop, send, retry, settle_post,
  stopped, posted, waited, after_wait, as_int64,
}

-- At most `most_posts` posts and `most_waits` waits; every post before the last was refused, and the
-- last was accepted exactly if no error came back.
pub record Told {W : Type 0} (most_posts most_waits : ℕ) (s : Sent W) : Type 0 where
  pub refused : List Reply
  pub all_refused : All (λ r. accepted r ≡ false) refused
  pub ends :
      ((r : Reply) × (s.posts ≡ refused ++ r ∷ []) × (accepted r ≡ true) × (s.error ≡ none))
      ⊎ ((s.posts ≡ refused) × (s.error ≢ none))
  pub few_posts : length s.posts ≤ most_posts
  pub few_waits : length s.waits ≤ most_waits

module _ {W : Type 0} (client : Client W) (total : ℕ) (body : Bytes) where
  Told-refused :
      (m n : ℕ) (r : Reply) (s : Sent W)
      → accepted r ≡ false
      → Told m n s
      → Told (suc m) n (posted client total body r s)
  Told-refused m n r s h t = record {
    refused = r ∷ t.refused;
    all_refused = (h, t.all_refused);
    ends = elim t.ends [
      | inl (last, posts, good, fine) ↦ inl (last, ap (λ l. r ∷ l) posts, good, fine)
      | inr (posts, err) ↦ inr (ap (λ l. r ∷ l) posts, err)
    ];
    few_posts = omega (arith, t.few_posts);
    few_waits = t.few_waits;
  }

  Told-stopped : (m n : ℕ) (w : W) (e : SendError) → Told m n (stopped client total body w (some e))
  Told-stopped m n w e = record {
    refused = [];
    all_refused = tt;
    ends = inr (refl, λ eq. cc);
    few_posts = omega arith;
    few_waits = omega arith;
  }

  Told-waited :
      (m n : ℕ) (d : Duration) (s : Sent W)
      → Told m n s
      → Told m (suc n) (waited client total body d s)
  Told-waited m n d s t = record {
    refused = t.refused;
    all_refused = t.all_refused;
    ends = t.ends;
    few_posts = t.few_posts;
    few_waits = omega (arith, t.few_waits);
  }

  Told-accepted :
      (m n : ℕ) (r : Reply) (w : W)
      → accepted r ≡ true
      → Told (suc m) n (posted client total body r (stopped client total body w none))
  Told-accepted m n r w h = record {
    refused = [];
    all_refused = tt;
    ends = inl (r, refl, h, refl);
    few_posts = omega arith;
    few_waits = omega arith;
  }

  retry-Told :
      (left backoff : ℕ) (r : Reply) (w : W) (next : W → Sent W)
      → ((w' : W) → Told left (left - 1) (next w'))
      → Told left left (retry client total body left backoff r w next)
  retry-Told zero backoff r w next told = Told-stopped 0 0 w _
  retry-Told (suc left) backoff r w next told = pick (client.wait (as_int64 backoff) w)
    where
      pick :
          (x : W × Option String)
          → Told (suc left) (suc left) (after_wait client total body (as_int64 backoff) x next)
      pick (w', none) =
          Told-waited (suc left) left _ (next w')
            (subst (λ n. Told (suc left) n (next w')) (omega arith) (told w'))
      pick (w', some err) = Told-waited (suc left) left _ _ (Told-stopped (suc left) left w' _)

  settle_post-Told :
      (left backoff : ℕ) (r : Reply) (w : W) (next : W → Sent W)
      → ((w' : W) → Told left (left - 1) (next w'))
      → Told (suc left) left (settle_post client total body left backoff r w next)
  settle_post-Told left backoff r w next told = elim (Bool-cases (accepted r)) [
    | inl good ↦ rw (settle_post, good) (Told-accepted left left r w good)
    | inr bad ↦
        rw (settle_post, bad)
          (Told-refused left left r _ bad (retry-Told left backoff r w next told))
  ]

  send_loop-Told :
      (left backoff : ℕ) (last : Option Reply) (w : W)
      → Told left (left - 1) (send_loop client total body left backoff last w)
  unfolding send_loop
  send_loop-Told zero backoff last w = Told-stopped 0 _ w _
  send_loop-Told (suc left) backoff last w = elim (Option-cases client.build) [
    | inl ready ↦
        let same : left ≡ suc left - 1 = omega arith in
        let (w', r) = client.post body w in
        subst (λ (n : ℕ). Told (suc left) n (send_loop client total body (suc left) backoff last w))
          same
          (rw (send_loop, ready)
            (settle_post-Told left backoff r w' _
              (λ w''. send_loop-Told left (backoff * 2 % 2 ^ 64) (some r) w'')))
    | inr (err, broken) ↦ rw (send_loop, broken) (Told-stopped (suc left) _ w _)
  ]

-- Send posts at most retries + 1 times and waits fewer times than that; it returns no error
-- exactly if its last post was accepted, and every post before that was refused.
pub send-Told :
    {W : Type 0} (client : Client W) (retries : ℤ) (body : Bytes) (w : W)
    → Told (attempts_of retries) (attempts_of retries - 1) (send client retries body w)
unfolding send
send-Told client retries body w =
    send_loop-Told client (attempts_of retries) body (attempts_of retries) second none w
