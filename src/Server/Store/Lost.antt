-- ===== src/Server/Store/Lost.antt =====
-- lib/handler.c: pages after a commit that comes by multicast (`__process_multicast_rpc_commit`).
use maruswap.Base.{ℕ, ◌≡◌, refl, true, false, ◌∷◌, eq→==}
use maruswap.Base.Run.{ok}
use maruswap.Drive.Header.{flow_header}
use maruswap.Drive.Net.{Wc}
use maruswap.Server.Header.{ib_get_opcode, multicast_opcode_commit}
use maruswap.Server.State.{Verbs, Server, change_work}
use maruswap.Server.Multicast.{
  process_multicast_rpc_flow, process_multicast_rpc_commit, ib_process_multicast_completion,
}
use maruswap.Server.Marked.Commit.{process_multicast_rpc_commit-Leaves}
use maruswap.Server.Store.{Arrival, filled, completion, arrive, view}
use maruswap.Protocol.RoundTrip.{interpret-flow_header}

module _ (v : Verbs) where
  -- A page in a receive work that is marked is filed, and not stored.
  arrive-marked :
      (fuel : ℕ) (a : Arrival) (t : Server)
      → (t.works a.work).convey ≡ true
      → t.lock ≡ false
      → (u : Server) × (arrive v fuel a t ≡ ok tt u)
        × (view u ≡ view t)
        × (u.commit_list ≡ a.work ∷ t.commit_list)
        × (u.batch ≡ t.batch)
  unfolding arrive ib_process_multicast_completion process_multicast_rpc_flow
  arrive-marked fuel a t marked free =
      let same = eq→== a.work a.work refl in
      let opcode : ib_get_opcode (flow_header a.number) ≡ 0x1 =
        (interpret-flow_header a.number).1 in
      let u : Server =
        record (change_work a.work (λ w. record w { wc = completion a }) (filled a t)) {
          commit_list = a.work ∷ t.commit_list;
          lock = false;
        } in
      (u, rw (opcode, free, same, marked) refl, refl, refl, refl)

  -- A commit that comes by multicast and returns leaves the marks on receive works. So a page that
  -- comes next in a work that was marked, while the lock is free, is filed but not counted, and the
  -- store is what it was without the page.
  pub ib_process_multicast_completion-loses :
      (fuel : ℕ) (wc : Wc) (s : Server) {t : Server} (a : Arrival)
      → ib_get_opcode wc.imm_data ≡ multicast_opcode_commit
      → ib_process_multicast_completion v fuel wc s ≡ ok tt t
      → (s.works a.work).convey ≡ true
      → t.lock ≡ false
      → (u : Server) × (arrive v fuel a t ≡ ok tt u)
        × (view u ≡ view t)
        × (u.commit_list ≡ a.work ∷ t.commit_list)
        × (u.batch ≡ t.batch)
  unfolding ib_process_multicast_completion
  ib_process_multicast_completion-loses fuel wc s {t} a opcode h marked free =
      let done : process_multicast_rpc_commit v fuel wc s ≡ ok tt t = rw opcode at h in
      let left = (process_multicast_rpc_commit-Leaves v a.work fuel wc).stays s tt t done marked in
      arrive-marked fuel a t left free
