-- ===== src/RateLimit/Clients.antt =====
-- The clients that are tracked: never more than the limit, each with a bucket of its own.
use bormo_stats.Base.{
  ℕ, suc, ◌≤◌, ◌<◌, String, ◌≡◌, ◌≢◌, refl, ap, ◌∙◌, false, Option, none, some, [], ◌∷◌, ◌++◌,
  length, length-append, str_eq, arith, eq_iff,
}
use bormo_stats.RateLimit.Defs.{
  TokenBucket, Buckets, ClientBuckets, new_bucket, consume, get_bucket, without, evict, consume_for,
  client_consume,
}

without-length_le : (client : String) (bs : Buckets) → length (without client bs) ≤ length bs
unfolding without
without-length_le client [] = ground arith
without-length_le client ((c, x) ∷ bs) = ground (arith, without-length_le client bs)

without-length :
    (client : String) (bs : Buckets) (b : TokenBucket)
    → get_bucket client bs ≡ some b
    → suc (length (without client bs)) ≤ length bs
unfolding get_bucket without
without-length client [] b h = cc
without-length client ((c, x) ∷ bs) b h =
    ground (arith, without-length client bs b, without-length_le client bs)

evict-length :
    (max_clients : ℕ) (bs : Buckets)
    → length bs ≤ suc max_clients
    → length (evict max_clients bs) ≤ max_clients
unfolding evict
evict-length max_clients [] h = ground arith
evict-length max_clients (b ∷ bs) h = ground arith

consume_for-length :
    (now : ℕ) (client : String) (found : Option TokenBucket) (cs : ClientBuckets)
    → get_bucket client cs.buckets ≡ found
    → length cs.buckets ≤ cs.max_clients
    → length (consume_for now client found cs).1.buckets ≤ cs.max_clients
unfolding consume_for
consume_for-length now client none cs e h =
    let b = (consume now (new_bucket now cs.burst)).1 in
    evict-length cs.max_clients (cs.buckets ++ ((client, b) ∷ []))
      (ground (arith, length-append cs.buckets ((client, b) ∷ []), h))
consume_for-length now client (some b) cs e h = ground (
  arith,
  length-append (without client cs.buckets) ((client, (consume now b).1) ∷ []),
  without-length client cs.buckets b e,
  h,
)

-- If no more clients than the limit are tracked, then no more are after a request.
pub client_consume-bounded :
    (now : ℕ) (client : String) (cs : ClientBuckets)
    → length cs.buckets ≤ cs.max_clients
    → length (client_consume now client cs).1.buckets ≤ cs.max_clients
unfolding client_consume
client_consume-bounded now client cs h =
    consume_for-length now client (get_bucket client cs.buckets) cs refl h

get-without :
    (client other : String) (bs : Buckets)
    → str_eq other client ≡ false
    → get_bucket other (without client bs) ≡ get_bucket other bs
unfolding get_bucket without
get-without client other [] h = refl
get-without client other ((c, b) ∷ bs) h =
    ground
      (arith, get-without client other bs h, eq_iff client c, eq_iff other c, eq_iff other client)

get-append :
    (client other : String) (b : TokenBucket) (bs : Buckets)
    → str_eq other client ≡ false
    → get_bucket other (bs ++ ((client, b) ∷ [])) ≡ get_bucket other bs
unfolding get_bucket
get-append client other b [] h = ground arith
get-append client other b ((c, x) ∷ bs) h = ground (arith, get-append client other b bs h)

evict_nothing :
    (max_clients : ℕ) (bs : Buckets) → length bs ≤ max_clients → evict max_clients bs ≡ bs
unfolding evict
evict_nothing max_clients [] h = refl
evict_nothing max_clients (b ∷ bs) h = ground arith

consume_for-others :
    (now : ℕ) (client other : String) (found : Option TokenBucket) (cs : ClientBuckets)
    → str_eq other client ≡ false
    → length cs.buckets < cs.max_clients
    → get_bucket other (consume_for now client found cs).1.buckets ≡ get_bucket other cs.buckets
unfolding consume_for
consume_for-others now client other none cs h room =
    let b = (consume now (new_bucket now cs.burst)).1 in
    ap (get_bucket other) (
      evict_nothing cs.max_clients (cs.buckets ++ ((client, b) ∷ []))
        (ground (arith, length-append cs.buckets ((client, b) ∷ []), room)))
    ∙ get-append client other b cs.buckets h
consume_for-others now client other (some b) cs h room =
    get-append client other (consume now b).1 (without client cs.buckets) h
    ∙ get-without client other cs.buckets h

-- While there is room for one more client, a request of one client leaves the buckets of all the
-- others as they are.
pub client_consume-keeps_others :
    (now : ℕ) (client other : String) (cs : ClientBuckets)
    → other ≢ client
    → length cs.buckets < cs.max_clients
    → get_bucket other (client_consume now client cs).1.buckets ≡ get_bucket other cs.buckets
unfolding client_consume
client_consume-keeps_others now client other cs h room =
    consume_for-others now client other (get_bucket client cs.buckets) cs
      (ground (arith, eq_iff other client, h)) room
