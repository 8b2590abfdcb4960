-- ===== src/Tests.antt =====
-- Runs of the definitions on concrete inputs, and the theorems at such inputs.
mod App
mod Site
mod Screens
mod Pages
mod Browse
mod Scrolled
mod Pool
mod Routes
mod Clock
