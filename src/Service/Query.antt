-- ===== src/Service/Query.antt =====
-- `splitQueryID` and the collection of answers in `ListAll`. A text is the list of its bytes.
use node_messager.Base.{
  ℕ, ◌+◌, ◌-◌, ◌<◌, ◌≡◌, refl, ap, ap₂, ◌∙◌, ◌≢◌, Bool, true, false, Option, none, some, List, [],
  ◌∷◌, ◌++◌, arith, leb, ltb, ◌==◌, nat_eq, if◌then◌else◌, length, length-append, append-nil,
  append_assoc, All,
}

-- The loop: the bytes up to the first '|' and those behind it.
pub cut : List ℕ → Option (List ℕ × List ℕ)
cut [] = none
cut (c ∷ cs) = elim (c == b'|') [
  | true ↦ some ([], cs)
  | false ↦ elim (cut cs) [ none ↦ none | some (a, b) ↦ some (c ∷ a, b) ]
]

-- The query's id and the table.
unfoldable pub split_query_id : List ℕ → List ℕ × List ℕ
unfolding cut
split_query_id raw = elim (cut raw) [ none ↦ ([], raw) | some (a, b) ↦ (a, b) ]

-- `queryID + "|" + table`
abbrev pub tagged : List ℕ → List ℕ → List ℕ
tagged query_id table = query_id ++ b'|' ∷ table

cut-tagged :
    (query_id table : List ℕ)
    → All (λ c. c ≢ b'|') query_id
    → cut (tagged query_id table) ≡ some (query_id, table)
unfolding cut
cut-tagged [] table h = refl
cut-tagged (c ∷ cs) table h = ground (arith, h.0, cut-tagged cs table h.1)

-- An id without '|' comes back from a tagged table with the table, whatever the table is.
pub split_query_id-tagged :
    (query_id table : List ℕ)
    → All (λ c. c ≢ b'|') query_id
    → split_query_id (tagged query_id table) ≡ (query_id, table)
unfolding split_query_id
split_query_id-tagged query_id table h = rw (cut-tagged query_id table h, split_query_id)

-- `queryCollector`: `closed` is whether `done` is closed. `R` is the type of an answer.
pub record Collector (R : Type 0) : Type 0 where
  pub expected : ℕ
  pub results : List R
  pub closed : Bool

module _ {R : Type 0} where
  unfoldable pub open_collector : ℕ → Collector R
  open_collector peers = record { expected = peers; results = []; closed = false }

  -- `select { case <-col.done: default: close(col.done) }` once there are enough results.
  abbrev pub close_if_full : Collector R → Collector R
  close_if_full c = if leb c.expected (length c.results) then record c { closed = true } else c

  -- The broadcast could not reach `k` peers.
  unfoldable pub lower_expected : ℕ → Collector R → Collector R
  lower_expected k c = if ltb 0 k then close_if_full (record c { expected = c.expected - k }) else c

  -- `HandleQueryResponse` on a query that waits.
  unfoldable pub add_result : R → Collector R → Collector R
  add_result r c = close_if_full (record c { results = c.results ++ r ∷ [] })

  unfoldable pub add_results : List R → Collector R → Collector R
  unfolding add_result
  add_results [] c = c
  add_results (r ∷ rs) c = add_results rs (add_result r c)

  -- `done` is closed exactly when there are enough results.
  abbrev pub IsExact : Collector R → Type 0
  IsExact c = c.closed ≡ leb c.expected (length c.results)

  add_result-IsExact : (r : R) (c : Collector R) → IsExact c → IsExact (add_result r c)
  unfolding add_result
  add_result-IsExact r c x = ground (arith, length-append c.results (r ∷ []))

  lower_expected-IsExact : (k : ℕ) (c : Collector R) → IsExact c → IsExact (lower_expected k c)
  unfolding lower_expected
  lower_expected-IsExact k c x = ground arith

  add_result-fields :
      (r : R) (c : Collector R)
      → ((add_result r c).results ≡ c.results ++ r ∷ []) × ((add_result r c).expected ≡ c.expected)
  unfolding add_result
  add_result-fields r c = (ground arith, ground arith)

  -- `c` has become `d`: exact, with the results `rs` more.
  pub record Gains (rs : List R) (c d : Collector R) : Type 0 where
    pub exact : IsExact d
    pub results : d.results ≡ c.results ++ rs
    pub expected : d.expected ≡ c.expected

  add_results-Gains : (rs : List R) (c : Collector R) → IsExact c → Gains rs c (add_results rs c)
  unfolding add_results
  add_results-Gains [] c x = record { exact = x; results = simp append-nil; expected = refl }
  add_results-Gains (r ∷ rs) c x =
      let h = add_results-Gains rs (add_result r c) (add_result-IsExact r c x) in
      let f = add_result-fields r c in
      record {
        exact = h.exact;
        results = h.results ∙ (rw (f.0, append_assoc) refl);
        expected = h.expected ∙ f.1;
      }

  lower_expected-fields :
      (k : ℕ) (c : Collector R)
      → ((lower_expected k c).results ≡ c.results)
        × ((lower_expected k c).expected ≡ c.expected - k)
  unfolding lower_expected
  lower_expected-fields k c = (ground arith, ground arith)

  -- The life of a collector: answers, then the broadcast's count of failures, then more answers.
  abbrev pub collect : ℕ → List R → ℕ → List R → Collector R
  collect peers early failures late =
      add_results late (lower_expected failures (add_results early (open_collector peers)))

  -- With at least one peer asked, `done` is closed exactly when as many answers have come as peers
  -- were reached, and the results are all the answers in their order.
  pub collect-closed :
      (peers failures : ℕ) (early late : List R)
      → 0 < peers
      → ((collect peers early failures late).closed
          ≡ leb (peers - failures) (length early + length late))
        × ((collect peers early failures late).results ≡ early ++ late)
  unfolding open_collector
  collect-closed peers failures early late h =
      let c0 : Collector R = open_collector peers in
      let a = add_results-Gains early c0 (ground arith) in
      let c1 = add_results early c0 in
      let x = lower_expected-IsExact failures c1 a.exact in
      let f = lower_expected-fields failures c1 in
      let b = add_results-Gains late (lower_expected failures c1) x in
      let q : (collect peers early failures late).results ≡ early ++ late =
        b.results ∙ (rw (f.0, a.results) refl) in
      let n = ap length q ∙ length-append early late in
      let m = b.expected ∙ f.1 ∙ ap (λ (t : ℕ). t - failures) a.expected in
      (b.exact ∙ ap₂ leb m n, q)

module _ {R : Type 0} where
  add_results-results :
      (rs : List R) (c : Collector R) → (add_results rs c).results ≡ c.results ++ rs
  unfolding add_results
  add_results-results [] c = simp append-nil
  add_results-results (r ∷ rs) c =
      add_results-results rs (add_result r c) ∙ rw ((add_result-fields r c).0, append_assoc) refl

  -- All the answers, in their order, also when nobody was asked.
  pub collect-results :
      (peers failures : ℕ) (early late : List R)
      → (collect peers early failures late).results ≡ early ++ late
  unfolding open_collector
  collect-results peers failures early late =
      let c0 : Collector R = open_collector peers in
      add_results-results late (lower_expected failures (add_results early c0))
      ∙ rw ((lower_expected-fields failures (add_results early c0)).0, add_results-results early c0)
          refl

-- How the wait of `ListAll` ends.
pub data Wait : Type 0 where
  ready timed_out context_done : Wait

-- The merge: an answer that does not decode is skipped.
unfoldable pub merge : {R Row : Type 0} → (R → Option (List Row)) → List Row → List R → List Row
merge decode rows [] = rows
merge {Row} decode rows (r ∷ rs) =
    let more : List Row = elim (decode r) [ none ↦ rows | some new_rows ↦ rows ++ new_rows ] in
    merge decode more rs

-- `ListAll` behind the wait; `own` are the node's rows, or none if its database failed.
unfoldable pub list_all :
    {R Row : Type 0}
    → (R → Option (List Row))
    → Option (List Row)
    → ℕ
    → Wait
    → Collector R
    → Option (List Row)
unfolding merge
list_all decode none peers w c = none
list_all decode (some own) peers context_done c =
    if ltb 0 peers then none else some (merge decode own c.results)
list_all decode (some own) peers _ c = some (merge decode own c.results)
