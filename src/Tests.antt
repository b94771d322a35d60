-- ===== src/Tests.antt =====
-- The theorems applied at concrete inputs.
mod Hosts
mod Brokers
mod Tunnels
mod Briefs
mod Policies
mod Resources
mod Proxies
mod Prompts
mod Markers
mod Archives
mod Reports
mod Acquisitions
mod Contents
mod Configs
mod Integrations
mod Artifacts
mod Namespaces
mod Invocations
mod Batches
