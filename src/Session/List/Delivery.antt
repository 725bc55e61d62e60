-- ===== src/Session/List/Delivery.antt =====
-- The listing of a directory arrives as it was walked, in however many packets it travels.
use mathlib.Core.List
use mathlib.Core.Path.{fun_ext, subst}
use qcp.Prelude.{
  ℕ, zero, suc, ◌≤◌, ◌≡◌, refl, sym, ap, arith, is_some, Bool, true, false, none, some, Option,
  Option-cases, List, [], ◌∷◌, ◌++◌, append-nil, append_assoc, length, ok, err, Result, inl, inr,
}
use qcp.Prelude.Text.{Str}
use qcp.Client.Job.{CopyJobSpec}
use qcp.Protocol.Compat.{Compatibility, supports, mkdir_setmeta_ls}
use qcp.Protocol.DataTag.{find_tag, from}
use qcp.Session.Attributes.{recurse, param_tag}
use qcp.Session.Effects.{M, Outcome, then_, respond, send_ok, no_result, RequestResult}
use qcp.Session.Exchange.{Endpoint, connection, finish, send, receive, diverge}
use qcp.Session.Exchange.Progress.{
  Reaches, Reaches-trans, stays, goes, first_sends, second_sends, first_receives, second_receives,
  AlwaysEnds, Reaches-AlwaysEnds,
}
use qcp.Session.Files.{FileSystem, FsMetadata, is_file}
use qcp.Session.List.{
  recurse_options, another, read_packets, list_send, write_packets, send_packets, send_entries,
  list_handle,
}
use qcp.Session.Listing as Listing
use qcp.Session.Listing.{ListData, ListEntry, SplitError, split_by_size, join}
use qcp.Session.Listing.RoundTrip.{receive-split_by_size}
use qcp.Session.Messages.{
  Packet, ListArgs, list, command_, response_, list_data_, status_of, status_to_u64, into_result,
  ok_,
}
use qcp.Session.Requests.{handle_stream, command_handler}

-- What follows twice follows once.
then_-then_ :
    {W A B C : Type 0} (p : Endpoint Packet (Outcome W A)) (g : A → M W B) (f : B → M W C)
    → then_ (then_ p g) f ≡ then_ p (λ a w. then_ (g a w) f)
then_-then_ (finish (ok a, w)) g f = refl
then_-then_ (finish (err e, w)) g f = refl
then_-then_ (send i p) g f = ap (send i) (then_-then_ p g f)
then_-then_ (receive k) g f = ap receive (fun_ext (λ o. then_-then_ (k o) g f))
then_-then_ diverge g f = refl

-- A packet that is not the last one is followed by a listing's packets.
receive-more :
    (p : ListData) (ps : List ListData)
    → p.more_to_come ≡ true
    → Listing.receive (p ∷ ps) ≡ some (p ∷ ps, [])
    → Listing.receive ps ≡ some (ps, [])
unfolding Listing.receive
receive-more p ps more h = elim (Option-cases (Listing.receive ps)) [
  | inl e ↦ let k = rw (more, e) at h in cc
  | inr (r, e) ↦
      let k = rw (more, e) at h in
      let front : r.0 ≡ ps = cc in let back : r.1 ≡ [] = cc in rw e (λ i. some (front i, back i))
]

not-receive-nil : Listing.receive [] ≡ some ([], []) → ⊥
unfolding Listing.receive
not-receive-nil h = cc

receive-last :
    (p : ListData) (ps : List ListData)
    → p.more_to_come ≡ false
    → Listing.receive (p ∷ ps) ≡ some (p ∷ ps, [])
    → ps ≡ []
unfolding Listing.receive
receive-last p ps last h = let k = rw last at h in cc

module _ {W B S : Type 0} where
  another-Reaches :
      (fuel : ℕ) (p : ListData) (ps : List ListData) (f : List ListData → M W B) (w : W)
      (q : Endpoint Packet S) (up : List Packet)
      → (Listing.receive ps ≡ some (ps, [])
          → Reaches
              (connection
                (then_ (read_packets fuel w) (λ later. f (p ∷ later)))
                q
                up
                (List.map list_data_ ps))
              (connection (f (p ∷ ps) w) q up []))
      → Listing.receive (p ∷ ps) ≡ some (p ∷ ps, [])
      → (more : Bool) → p.more_to_come ≡ more
      → Reaches
          (connection
            (then_ (another p more (read_packets fuel) w) f)
            q
            up
            (List.map list_data_ ps))
          (connection (f (p ∷ ps) w) q up [])
  unfolding another
  another-Reaches fuel p ps f w q up rest h true more =
      subst
        (λ c.
          Reaches (connection c q up (List.map list_data_ ps)) (connection (f (p ∷ ps) w) q up []))
        (sym (then_-then_ (read_packets fuel w) (λ later w'. finish (ok (p ∷ later), w')) f))
        (rest (receive-more p ps more h))
  another-Reaches fuel p ps f w q up rest h false last =
      let nothing = receive-last p ps last h in rw nothing (stays _)

  read_packets-Reaches :
      (fuel : ℕ) (ps : List ListData) (f : List ListData → M W B) (w : W) (q : Endpoint Packet S)
      (up : List Packet)
      → length ps ≤ fuel
      → Listing.receive ps ≡ some (ps, [])
      → Reaches
          (connection (then_ (read_packets fuel w) f) q up (List.map list_data_ ps))
          (connection (f ps w) q up [])
  unfolding read_packets
  read_packets-Reaches fuel [] f w q up enough h = absurd (not-receive-nil h)
  read_packets-Reaches zero (p ∷ ps) f w q up enough h = absurd (omega arith)
  read_packets-Reaches (suc fuel) (p ∷ ps) f w q up enough h =
      goes (first_receives (list_data_ p) _ q up (List.map list_data_ ps)) (
        another-Reaches fuel p ps f w q up
          (read_packets-Reaches fuel ps (λ later. f (p ∷ later)) w q up (omega arith)) h
          p.more_to_come refl)

module _ {W S : Type 0} where
  write_packets-Reaches :
      (ps : List ListData) (w : W) (p : Endpoint Packet S) (up down : List Packet)
      → Reaches
          (connection p (write_packets ps w) up down)
          (connection p (finish (ok tt, w)) up (down ++ List.map list_data_ ps))
  unfolding write_packets
  write_packets-Reaches [] w p up down = rw append-nil (stays _)
  write_packets-Reaches (d ∷ ps) w p up down =
      goes (second_sends (list_data_ d) p (write_packets ps w) up down) (
        rw (← append_assoc down (list_data_ d ∷ []) (List.map list_data_ ps))
          (write_packets-Reaches ps w p up (down ++ list_data_ d ∷ [])))

join-last : (ps : List ListData) → (join ps).more_to_come ≡ false
unfolding join
join-last [] = refl
join-last (p ∷ ps) = refl

find_recurse : (b : Bool) → is_some (find_tag recurse (recurse_options b)) ≡ b
unfolding find_tag from
find_recurse true = refl
find_recurse false = refl

abbrev pub listed : List ListEntry → RequestResult
listed entries = record no_result {
  list = some (record { entries = entries; more_to_come = false });
}

module _ {W V : Type 0} (fs : FileSystem V) (walk : Str → Bool → V → Result Str (List ListEntry))
    (entry_size : ListEntry → Option ℕ) (data_size : ListData → Option ℕ) (max_size fuel : ℕ)
    (compat server : Compatibility) (job : CopyJobSpec) (recursive : Bool) (w : W) (v : V) where
  -- Where the agreed level of the client has the command, the path on the server is not a file, the
  -- walk finds entries, the root first among them, and they can be split: however the two ends go on,
  -- the exchange ends with success at both, neither file system changes, and the client has exactly
  -- the entries of the walk, in its order. The walk is recursive exactly if the client asks for it.
  pub list_delivers :
      (meta : FsMetadata) (e : ListEntry) (es : List ListEntry) (ps : List ListData)
      → supports compat mkdir_setmeta_ls ≡ true
      → fs.metadata job.source.filename v ≡ ok meta
      → is_file meta ≡ false
      → walk job.source.filename recursive v ≡ ok (e ∷ es)
      → split_by_size entry_size data_size max_size
          (record { entries = e ∷ es; more_to_come = false })
        ≡ ok ps
      → length ps ≤ fuel
      → AlwaysEnds
          (connection
            (list_send fuel compat job recursive w)
            (handle_stream fs walk (split_by_size entry_size data_size max_size) server v)
            []
            [])
          (connection (finish (ok (listed (e ∷ es)), w)) (finish (ok tt, v)) [] [])
  unfolding list_send handle_stream command_handler list_handle send_entries send_packets send_ok
      respond into_result status_of status_to_u64
  list_delivers meta e es ps level known dir walked parted enough =
      let path = job.source.filename in
      let args : ListArgs = record { path = path; options = recurse_options recursive } in
      let (whole, joined) = receive-split_by_size entry_size data_size max_size e es ps [] parted in
      let all : ◌≡◌ {A = RequestResult} (record no_result { list = some (join ps) })
          (listed (e ∷ es)) =
        λ i. record no_result {
          list = some (record { entries = joined i; more_to_come = join-last ps i });
        } in
      Reaches-AlwaysEnds _ _ tt (
        rw level (
          goes (first_sends (command_ (list args)) _ _ [] []) (
            goes (second_receives (command_ (list args)) _ _ [] []) (
              rw (known, dir, find_recurse recursive, walked, parted)
                (goes (second_sends (response_ (respond (ok_, none))) _ _ [] []) (
                  Reaches-trans (write_packets-Reaches ps v _ [] _) (
                    goes (first_receives (response_ (respond (ok_, none))) _ _ [] _) (
                      rw (← all) (
                        read_packets-Reaches fuel ps
                          (λ parts w'.
                            finish (ok (record no_result { list = some (join parts) }), w'))
                          w _ [] enough (rw append-nil at whole))))))))))
