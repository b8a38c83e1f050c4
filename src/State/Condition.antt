-- ===== src/State/Condition.antt =====
-- src/state/container.rs: what the derived condition says, and when two readings say the same.
use fghj.Prelude.{
  eq_String, eq_ℕ, eq_ℤ, eq_Bool, eq_Option, eq_List, eq_pair, true, false, ◌≡◌, ◌↔◌, ap, arith,
  str_eq, equal_iff,
}
use fghj.State.Container.{
  ContainerObserved, ContainerInfo, NodeCondition, condition, is_up, same_reading,
}

-- The user is told of a crash just when the container can be seen, has not been deleted outside, is
-- meant to run for good, is not up, and did not go down unwatched.
pub crashed_iff :
    (c : ContainerInfo)
    → (condition c ≡ NodeCondition.crashed) ↔ (
        (c.observed.unseen ≡ false)
        × (str_eq c.observed.status "removed" ≡ false)
        × (c.desired.terminating ≡ false)
        × (c.desired.running ≡ true)
        × (is_up c.observed ≡ false)
        × (c.observed.interrupted ≡ false))
unfolding condition is_up
crashed_iff c = ground arith

-- Two readings say the same just when the first becomes the second once the two fields that Docker
-- never reports, the sync status and the seed record, are copied over.
pub same_reading_iff :
    (a b : ContainerObserved)
    → (same_reading a b ≡ true) ↔ (record a { sync = b.sync; seeded = b.seeded } ≡ b)
unfolding same_reading
same_reading_iff a b = (there, back)
  where
    there : same_reading a b ≡ true → record a { sync = b.sync; seeded = b.seeded } ≡ b
    there h =
        let status = (equal_iff a.status b.status).0 (ground arith) in
        let published_port = (equal_iff a.published_port b.published_port).0 (ground arith) in
        let ports = (equal_iff a.ports b.ports).0 (ground arith) in
        let exit_code = (equal_iff a.exit_code b.exit_code).0 (ground arith) in
        let interrupted = (equal_iff a.interrupted b.interrupted).0 (ground arith) in
        let unseen = (equal_iff a.unseen b.unseen).0 (ground arith) in
        λ i. record {
          status = status i;
          published_port = published_port i;
          ports = ports i;
          sync = b.sync;
          exit_code = exit_code i;
          interrupted = interrupted i;
          unseen = unseen i;
          seeded = b.seeded;
        }

    back : record a { sync = b.sync; seeded = b.seeded } ≡ b → same_reading a b ≡ true
    back q =
        let status = (equal_iff a.status b.status).1 (ap (λ (o : ContainerObserved). o.status) q) in
        let published_port =
          (equal_iff a.published_port b.published_port).1
            (ap (λ (o : ContainerObserved). o.published_port) q) in
        let ports = (equal_iff a.ports b.ports).1 (ap (λ (o : ContainerObserved). o.ports) q) in
        let exit_code =
          (equal_iff a.exit_code b.exit_code).1 (ap (λ (o : ContainerObserved). o.exit_code) q) in
        let interrupted =
          (equal_iff a.interrupted b.interrupted).1
            (ap (λ (o : ContainerObserved). o.interrupted) q) in
        let unseen = (equal_iff a.unseen b.unseen).1 (ap (λ (o : ContainerObserved). o.unseen) q) in
        ground arith
